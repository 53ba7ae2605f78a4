-- ===== src/Addon.antt =====
-- The input method addon (fcitx5-wetype/src/).
pub mod Punctuation
pub mod Symbols
pub mod Segment
pub mod Syllables
pub mod Glossary
pub mod Paths
pub mod Proc
pub mod Pairing
pub mod State
pub mod Sending
pub mod Composing
pub mod Keys
pub mod Answering
pub mod Recovery
pub mod Ending
pub mod Settled
pub mod Pressed
pub mod Events
pub mod Replies
pub mod Machine
pub mod Outputs
pub mod Pages
pub mod Glosses

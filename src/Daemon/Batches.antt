-- ===== src/Daemon/Batches.antt =====
-- The loop of `run_daemon` (harness/jinterop.c) that takes in the batches already queued.
use wetype_ime_linux.Base.{
  ℕ, zero, suc, ◌+◌, ◌-◌, ◌≤◌, ◌<◌, ◌≡◌, refl, sym, subst, ap, ◌∙◌, ◌⊎◌, inl, inr, List, Option,
  none, some, Bool, true, false, ltb, Bool-cases, Option-cases, length, take, drop, length-append,
  length-take, arith,
}
use wetype_ime_linux.Command.{
  In, in_size, split_line, Read, line, no_line, out_of_fuel, cmd_read, cmd_next_is_batch, feed_size,
}
use wetype_ime_linux.Command.Count.{lines_of, Took, cmd_next_is_batch_lines, cmd_read-Took}
use wetype_ime_linux.Daemon.Kept.{none-some, some_inj}
use wetype_ime_linux.Command.Fuel.{
  input_size, cmd_next_is_batch-Looked, cmd_read-whole, split_line_less,
}
use wetype_ime_linux.Fetch.{until_nul}
use wetype_ime_linux.Daemon.{Batch, append_keys, coalesce, line_size}
use wetype_ime_linux.Daemon.Commands.{gather}

-- The keys fit their buffer.
abbrev pub IsLineful : List ℕ → Type 0
IsLineful keys = length keys < line_size

append_keys_bound : (keys next : List ℕ) → IsLineful keys → IsLineful (append_keys keys next)
unfolding append_keys
append_keys_bound keys next h =
    let more = drop 2 (until_nul next) in
    let n = line_size - length keys - 1 in
    omega (arith, h, length-append keys (take n more), length-take n more)

-- How the loop ends: with keys that fit the buffer, and no more input than it began with.
pub record Gathered (i : In) (o : Option Batch) : Type 0 where
  pub batch : Batch
  pub ends : o ≡ some batch
  pub keys : IsLineful batch.keys
  pub total : input_size batch.input ≤ input_size i
  pub fits : length batch.input.buf ≤ in_size

coalesce-Gathered :
    (fuel : ℕ) (b : Batch)
    → input_size b.input < fuel
    → length b.input.buf ≤ in_size
    → IsLineful b.keys
    → Gathered b.input (coalesce fuel b)
unfolding coalesce
coalesce-Gathered zero b f h k = absurd (omega arith)
coalesce-Gathered (suc fuel) b f h k =
    let n = suc (feed_size b.input.feed) in
    let look = cmd_next_is_batch-Looked n b.input (omega arith) h in
    elim (Bool-cases (ltb (length b.keys + 64) line_size)) [
      | inr full ↦
          rw (coalesce, full)
            (record { batch = b; ends = refl; keys = k; total = omega arith; fits = h })
      | inl room ↦ elim (Bool-cases look.found) [
        | inr miss ↦
            let e : cmd_next_is_batch n b.input ≡ some (false, look.after) =
              look.ends ∙ ap (λ x. some (x, look.after)) miss in
            rw (coalesce, room, e)
              (record {
                batch = record b { input = look.after };
                ends = refl;
                keys = k;
                total = look.total;
                fits = look.fits;
              })
        | inl hit ↦ elim (Option-cases (split_line look.after.buf)) [
          | inl q ↦ absurd (look.whole hit q)
          | inr ((l, r), y) ↦
              let i = look.after in
              let e : cmd_next_is_batch n b.input ≡ some (true, i) =
                look.ends ∙ ap (λ x. some (x, i)) hit in
              let next = take (line_size - 1) l in
              let i' = record i { buf = r } in
              let reads : cmd_read (suc (feed_size i.feed)) line_size false i ≡ line next i' =
                cmd_read-whole (feed_size i.feed) line_size i l r y in
              let shorter = split_line_less i.buf l r y in
              let b' : Batch = record {
                keys = append_keys b.keys next;
                skipped = suc b.skipped;
                input = i';
              } in
              let g =
                coalesce-Gathered fuel b' (omega (arith, f, look.total, shorter))
                  (omega (arith, look.fits, shorter)) (append_keys_bound b.keys next k) in
              rw (coalesce, room, e, reads)
                (record {
                  batch = g.batch;
                  ends = g.ends;
                  keys = g.keys;
                  total = omega (arith, g.total, shorter, look.total);
                  fits = g.fits;
                })
        ]
      ]
    ]

-- However many batches are queued, gathering them ends, with keys that fit the line's buffer of 512
-- bytes, and leaves a reader whose buffer is within its bounds and whose input is no longer.
pub gather-Gathered :
    (single : Bool) (keys : List ℕ) (i : In)
    → length i.buf ≤ in_size
    → Gathered i (gather single keys i)
unfolding gather
gather-Gathered true keys i h = record {
  batch = record { keys = take 511 keys; skipped = 0; input = i };
  ends = refl;
  keys = omega (arith, length-take 511 keys);
  total = omega arith;
  fits = h;
}
gather-Gathered false keys i h =
    let b : Batch = record { keys = take 511 keys; skipped = 0; input = i } in
    let g =
      coalesce-Gathered (suc (input_size i)) b (omega arith) h
        (omega (arith, length-take 511 keys)) in
    record { batch = g.batch; ends = g.ends; keys = g.keys; total = g.total; fits = g.fits }

Read-cases :
    (r : Read)
    → ((l : List ℕ) × (i : In) × (r ≡ line l i))
      ⊎ (((i : In) × (r ≡ no_line i)) ⊎ (r ≡ out_of_fuel))
Read-cases (line l i) = inl (l, i, refl)
Read-cases (no_line i) = inr (inl (i, refl))
Read-cases out_of_fuel = inr (inr refl)

-- Each batch taken in is one line of the input, and no other line is lost.
coalesce_lines :
    (fuel : ℕ) (b b' : Batch)
    → coalesce fuel b ≡ some b'
    → lines_of b.input + b.skipped ≡ lines_of b'.input + b'.skipped
unfolding coalesce
coalesce_lines zero b b' h = absurd (none-some h)
coalesce_lines (suc fuel) b b' h = elim (Bool-cases (ltb (length b.keys + 64) line_size)) [
  | inr full ↦
      let q : coalesce (suc fuel) b ≡ some b = rw (coalesce, full) refl in
      same (some_inj (sym q ∙ h))
  | inl room ↦ elim (Option-cases (cmd_next_is_batch (suc (feed_size b.input.feed)) b.input)) [
    | inl n ↦
        let q : coalesce (suc fuel) b ≡ none = rw (coalesce, room, n) refl in
        absurd (none-some (sym q ∙ h))
    | inr ((found, i), y) ↦
        let k = cmd_next_is_batch_lines _ b.input i found y in
        elim (Bool-cases found) [
          | inr z ↦
              let e = y ∙ ap (λ x. some (x, i)) z in
              let q : coalesce (suc fuel) b ≡ some (record b { input = i }) =
                rw (coalesce, room, e) refl in
              let rest = same (some_inj (sym q ∙ h)) in omega (arith, rest, k)
          | inl z ↦
              let e = y ∙ ap (λ x. some (x, i)) z in
              let n = suc (feed_size i.feed) in
              let took = cmd_read-Took n line_size false i in
              elim (Read-cases (cmd_read n line_size false i)) [
                | inl (next, i', r) ↦
                    let b₂ : Batch = record {
                      keys = append_keys b.keys next;
                      skipped = suc b.skipped;
                      input = i';
                    } in
                    let q : coalesce (suc fuel) b ≡ coalesce fuel b₂ =
                      rw (coalesce, room, e, r) refl in
                    let rest = coalesce_lines fuel b₂ b' (sym q ∙ h) in
                    let one : lines_of i ≡ suc (lines_of i') = subst (Took i) r took in
                    omega (arith, rest, one, k)
                | inr (inl (i', r)) ↦
                    let q : coalesce (suc fuel) b ≡ some (record b { input = i' }) =
                      rw (coalesce, room, e, r) refl in
                    let rest = same (some_inj (sym q ∙ h)) in
                    let one : lines_of i ≡ lines_of i' = subst (Took i) r took in
                    omega (arith, rest, one, k)
                | inr (inr r) ↦
                    let q : coalesce (suc fuel) b ≡ none = rw (coalesce, room, e, r) refl in
                    absurd (none-some (sym q ∙ h))
              ]
        ]
  ]
]
  where
    same : {a : Batch} → a ≡ b' → lines_of a.input + a.skipped ≡ lines_of b'.input + b'.skipped
    same e = ap (λ (a : Batch). lines_of a.input + a.skipped) e

-- The lines read with a line `L` or `B` are the batches counted.
pub gather_lines :
    (single : Bool) (keys : List ℕ) (i : In) (b : Batch)
    → gather single keys i ≡ some b
    → lines_of i ≡ b.skipped + lines_of b.input
unfolding gather
gather_lines true keys i b h =
    let e = ap (λ (a : Batch). lines_of a.input + a.skipped) (some_inj h) in omega (arith, e)
gather_lines false keys i b h =
    let first : Batch = record { keys = take 511 keys; skipped = 0; input = i } in
    let e = coalesce_lines (suc (length i.buf + feed_size i.feed)) first b h in omega (arith, e)

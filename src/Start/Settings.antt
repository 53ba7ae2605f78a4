-- ===== src/Start/Settings.antt =====
-- The objects that harness/jinterop.c configures the engine with: every setting reads back.
use wetype_ime_linux.Base.{ℕ, ◌≡◌, refl, List, [], Option, some, All, str_eqb}
use wetype_ime_linux.Memory.{JField}
use wetype_ime_linux.Objects.{plain, find_field, put_field, replace_field}
use wetype_ime_linux.Start.{
  Config, wubi_config, input_augmenter, local_most_likely_config, local_process_input_config,
  cloud_most_likely_config, cloud_process_input_config, cloud_recommend_config,
  cloud_text_rewrite_config, cloud_resource_display_config, cloud_engine_config, group_sync_info,
  Setting, set_fields, config_fields, build_sesscfg_nested, session_fields, session_config,
  init_fields,
}

-- Each setting is what the object has under its name.
abbrev pub ReadsBack : List Setting → List JField → Type 0
ReadsBack ss fs = All (λ (s : Setting). find_field s.0 fs ≡ some (plain s.0 s.1.0 s.1.1)) ss

nested-ReadsBack :
    (at : Config → ℕ) (c : Config) → ReadsBack (config_fields at c) (build_sesscfg_nested at c)
unfolding build_sesscfg_nested set_fields find_field put_field replace_field str_eqb
nested-ReadsBack at wubi_config = (refl, tt)
nested-ReadsBack at input_augmenter = (refl, (refl, (refl, (refl, (refl, (refl, (refl, tt)))))))
nested-ReadsBack at local_most_likely_config = (refl, (refl, (refl, (refl, (refl, (refl, tt))))))
nested-ReadsBack at local_process_input_config = (refl, (refl, (refl, (refl, tt))))
nested-ReadsBack at cloud_most_likely_config = (refl, (refl, (refl, (refl, (refl, tt)))))
nested-ReadsBack at cloud_process_input_config = (refl, tt)
nested-ReadsBack at cloud_recommend_config = tt
nested-ReadsBack at cloud_text_rewrite_config = tt
nested-ReadsBack at cloud_resource_display_config = tt
nested-ReadsBack at cloud_engine_config = (refl, (refl, (refl, (refl, (refl, tt)))))
nested-ReadsBack at group_sync_info = tt

session-ReadsBack :
    (at : Config → ℕ) (app_name keyboard : ℕ)
    → ReadsBack (session_fields at app_name keyboard) (session_config at app_name keyboard)
unfolding session_config set_fields find_field put_field replace_field str_eqb
session-ReadsBack at app_name keyboard = (
  refl,
  (
    refl,
    (
      refl,
      (refl, (refl, (refl, (refl, (refl, (refl, (refl, (refl, (refl, (refl, (refl, tt))))))))))),
    ),
  ),
)

init-ReadsBack :
    (str : List ℕ → ℕ) (device : ℕ) (work assets : Option (List ℕ))
    → ReadsBack
        (init_fields str device work assets)
        (set_fields (init_fields str device work assets) [])
unfolding set_fields find_field put_field replace_field str_eqb
init-ReadsBack str device work assets = (
  refl,
  (refl, (refl, (refl, (refl, (refl, (refl, (refl, (refl, (refl, (refl, (refl, tt))))))))))),
)

-- Every setting that the program makes, in the nested objects of the session's configuration, in that
-- configuration and in `InitInfo`, reads back as it was made: none replaces another, and no table
-- of fields is full.
pub settings-ReadsBack :
    (at : Config → ℕ) (app_name keyboard : ℕ) (str : List ℕ → ℕ) (device : ℕ)
    (work assets : Option (List ℕ))
    → ((c : Config) → ReadsBack (config_fields at c) (build_sesscfg_nested at c))
      × ReadsBack (session_fields at app_name keyboard) (session_config at app_name keyboard)
      × ReadsBack
          (init_fields str device work assets)
          (set_fields (init_fields str device work assets) [])
settings-ReadsBack at app_name keyboard str device work assets = (
  nested-ReadsBack at,
  session-ReadsBack at app_name keyboard,
  init-ReadsBack str device work assets,
)

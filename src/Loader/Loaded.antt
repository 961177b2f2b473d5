-- ===== src/Loader/Loaded.antt =====
-- What a config that loads satisfies.
use mcp_portal.Config.{McpPortalConfig, PolicyFileConfig}
use mcp_portal.Config.Sound.{IsSound, validate_config-IsSound}
use mcp_portal.Config.Validation.{validate_config}
use mcp_portal.PolicyConfig.{PolicyConfig, validate}
use mcp_portal.Policy.Validated.{IsFailClosed, validate_iff}
use mcp_portal.Base.{
  >>=-eq-ok, >>_iff, All, Option, Option-cases, Result-cases, Text, [], arith, inl, inr, nat_eq,
  none, ok, ok-injective, option_eq, refl, some, subst, sym, text_eq, ◌↔◌, ◌∙◌, ◌≡◌,
}
use mcp_portal.Json.{Json}
use mcp_portal.Platform.{Platform}
use mcp_portal.Loader.{
  Environment, LoadedConfig, Readers, check_header_denylist, collect_secrets, load_config,
  load_policy, load_policy_file, read_file, read_valid, resolved_path,
}
use mcp_portal.Loader.Secrets.{Collected, IsResolved, collect_secrets-IsResolved, texts_of}

module _ (env : Environment) (readers : Readers) where
  -- The checks that a loaded config has passed.
  pub record IsLoaded (py : Platform) (raw : Json) (loaded : LoadedConfig) : Type 0 where
    pub sound : IsSound loaded.config
    pub checked : check_header_denylist py loaded.config ≡ ok tt
    -- Each reference in the file has an entry, which holds what it resolves to.
    pub collected : All (Collected env loaded.base_dir loaded.secrets) (texts_of raw)
    pub resolved : IsResolved env loaded.base_dir loaded.secrets
    -- There is a policy exactly when the config names one, and it is a valid one.
    pub named : (loaded.policy ≡ none) ↔ (loaded.config.policy ≡ none)
    pub fail_closed : (p : PolicyConfig) → loaded.policy ≡ some p → IsFailClosed p

  read_valid-IsSound :
      (path : Text) (raw : Json) (c : McpPortalConfig)
      → read_valid env readers path raw ≡ ok c
      → IsSound c
  unfolding read_valid
  read_valid-IsSound path raw c h = elim (Option-cases (readers.read_config raw)) [
    | inl e ↦ ground arith
    | inr (d, e) ↦ elim (Result-cases (validate_config d)) [
      | inl (x, f) ↦ ground arith
      | inr (x, f) ↦
          subst IsSound (ok-injective (rw (read_valid, e, f) at h)) (validate_config-IsSound d x f)
    ]
  ]

  load_policy_file-IsFailClosed :
      (file base_dir : Text) (p : PolicyConfig)
      → load_policy_file env readers file base_dir ≡ ok p
      → IsFailClosed p
  unfolding load_policy_file
  load_policy_file-IsFailClosed file base_dir p h =
      let (raw, _, h₁) = >>=-eq-ok (read_file env readers (resolved_path base_dir file)) _ h in
      elim (Option-cases (readers.read_policy raw)) [
        | inl e ↦ ground arith
        | inr (d, e) ↦ elim (Result-cases (validate d)) [
          | inl (x, f) ↦ ground arith
          | inr (x, f) ↦
              let (same, closed) = (validate_iff d x).0 f in
              subst IsFailClosed (same ∙ ok-injective (rw (e, f) at h₁)) closed
        ]
      ]

  load_policy-loaded :
      (file : Option PolicyFileConfig) (base_dir : Text) (policy : Option PolicyConfig)
      → load_policy env readers file base_dir ≡ ok policy
      → ((policy ≡ none) ↔ (file ≡ none)) × ((p : PolicyConfig) → policy ≡ some p → IsFailClosed p)
  unfolding load_policy
  load_policy-loaded none base_dir policy h = ((λ _. refl, λ _. sym (ok-injective h)), λ p e. cc)
  load_policy-loaded (some file) base_dir policy h =
      let (q, read, h₁) = >>=-eq-ok (load_policy_file env readers file.file base_dir) _ h in
      let same = ok-injective h₁ in
      ((λ e. cc, λ e. cc), λ p e. load_policy_file-IsFailClosed file.file base_dir p (ground arith))

  -- A config that loads is sound, its headers have passed the denylist, every secret reference in
  -- its file is resolved, and it has a policy exactly when it names a policy's file, a valid one.
  pub load_config-IsLoaded :
      (py : Platform) (path base_dir : Text) (loaded : LoadedConfig)
      → load_config env readers py path base_dir ≡ ok loaded
      → (raw : Json) × (read_file env readers path ≡ ok raw) × IsLoaded py raw loaded
  unfolding load_config
  load_config-IsLoaded py path base_dir loaded h =
      let (raw, is_read, h₁) = >>=-eq-ok (read_file env readers path) _ h in
      let (config, valid, h₂) = >>=-eq-ok (read_valid env readers path raw) _ h₁ in
      let (checked, h₃) = (>>_iff (check_header_denylist py config) _ loaded).0 h₂ in
      let (secrets, found, h₄) = >>=-eq-ok (collect_secrets env base_dir raw []) _ h₃ in
      let (policy, ready, h₅) = >>=-eq-ok (load_policy env readers config.policy base_dir) _ h₄ in
      let (collected, resolved) = collect_secrets-IsResolved env base_dir raw secrets found in
      let (named, fail_closed) = load_policy-loaded config.policy base_dir policy ready in
      (
        raw,
        is_read,
        subst (IsLoaded py raw) (ok-injective h₅) (record {
          sound = read_valid-IsSound path raw config valid;
          checked = checked;
          collected = collected;
          resolved = resolved;
          named = named;
          fail_closed = fail_closed;
        }),
      )

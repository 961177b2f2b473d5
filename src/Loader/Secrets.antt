-- ===== src/Loader/Secrets.antt =====
-- What the collection of secrets resolves.
use mcp_portal.Base.{
  ==→≡, >>=-eq-ok, All, All-append, All-imp, Dict, List, Option-cases, Text, [], arith, inl, inr,
  insert, lookup, lookup-insert, nat_eq, none, ok, ok-injective, option_eq, some, subst, text_eq,
  ◌++◌, ◌∷◌, ◌≡◌, ◌≢◌,
}
use mcp_portal.Json.{Fields, Items, Json, arr, bool, cons, nil, null, num, obj, str}
use mcp_portal.Loader.{
  Environment, Loads, collect_fields, collect_items, collect_secrets, collect_text, resolve_secret,
  secret_ref,
}

-- The texts of a value, at any depth; the keys of objects are not among them.
unfoldable mutual
  pub texts_of : Json → List Text
  texts_of (str s) = s ∷ []
  texts_of (obj fs) = field_texts fs
  texts_of (arr xs) = item_texts xs
  texts_of null = []
  texts_of (bool b) = []
  texts_of (num n) = []

  pub item_texts : Items → List Text
  item_texts nil = []
  item_texts (cons j r) = texts_of j ++ item_texts r

  pub field_texts : Fields → List Text
  field_texts Fields.end = []
  field_texts (Fields.field k j r) = texts_of j ++ field_texts r

module _ (env : Environment) (base_dir : Text) where
  -- Every entry is a reference with the value that it resolves to.
  abbrev pub IsResolved : Dict Text Text → Type 0
  IsResolved out = (s v : Text) → lookup s out ≡ some v → resolve_secret env base_dir s ≡ ok v

  -- The text is no reference, or it has an entry.
  abbrev pub Collected : Dict Text Text → Text → Type 0
  Collected out s = secret_ref s ≢ none → lookup s out ≢ none

  record Grown (seen : List Text) (out out' : Dict Text Text) : Type 0 where
    resolved : IsResolved out → IsResolved out'
    kept : (s : Text) → lookup s out ≢ none → lookup s out' ≢ none
    all_seen : All (Collected out') seen

  Grown-nil :
      (out out' : Dict Text Text)
      → ◌≡◌ {A = Loads (Dict Text Text)} (ok out) (ok out')
      → Grown [] out out'
  Grown-nil out out' h =
      subst (Grown [] out) (ok-injective h)
        (record { resolved = λ r. r; kept = λ s k. k; all_seen = tt })

  Grown-append :
      (xs ys : List Text) (a b c : Dict Text Text)
      → Grown xs a b
      → Grown ys b c
      → Grown (xs ++ ys) a c
  Grown-append xs ys a b c g h = record {
    resolved = λ r. h.resolved (g.resolved r);
    kept = λ s k. h.kept s (g.kept s k);
    all_seen =
        (All-append (Collected c) xs ys).1
          (All-imp xs (λ s f n. h.kept s (f n)) g.all_seen, h.all_seen);
  }

  insert-Grown :
      (s value : Text) (out : Dict Text Text)
      → resolve_secret env base_dir s ≡ ok value
      → Grown (s ∷ []) out (insert s value out)
  insert-Grown s value out found = record {
    resolved = λ r t v q. ground (arith, r t v, ==→≡ t s, lookup-insert t s value out, found);
    kept = λ t k. ground (arith, k, lookup-insert t s value out);
    all_seen = (λ n. ground (arith, lookup-insert s s value out), tt);
  }

  collect_text-Grown :
      (s : Text) (out out' : Dict Text Text)
      → collect_text env base_dir s out ≡ ok out'
      → Grown (s ∷ []) out out'
  unfolding collect_text
  collect_text-Grown s out out' h = elim (Option-cases (secret_ref s)) [
    | inl e ↦
        subst (Grown (s ∷ []) out) (ok-injective (rw (collect_text, e) at h))
          (record { resolved = λ r. r; kept = λ t k. k; all_seen = (λ n. absurd (n e), tt) })
    | inr (r, e) ↦
        let (value, found, h₁) =
          >>=-eq-ok (resolve_secret env base_dir s) (λ (value : Text). ok (insert s value out))
            (rw (collect_text, e) at h) in
        subst (Grown (s ∷ []) out) (ok-injective h₁) (insert-Grown s value out found)
  ]

  mutual
    unfolding collect_secrets texts_of

    collect_secrets-Grown :
        (j : Json) (out out' : Dict Text Text)
        → collect_secrets env base_dir j out ≡ ok out'
        → Grown (texts_of j) out out'
    collect_secrets-Grown (str s) out out' h = collect_text-Grown s out out' h
    collect_secrets-Grown (obj fs) out out' h = collect_fields-Grown fs out out' h
    collect_secrets-Grown (arr xs) out out' h = collect_items-Grown xs out out' h
    collect_secrets-Grown null out out' h = Grown-nil out out' h
    collect_secrets-Grown (bool b) out out' h = Grown-nil out out' h
    collect_secrets-Grown (num n) out out' h = Grown-nil out out' h

    collect_items-Grown :
        (xs : Items) (out out' : Dict Text Text)
        → collect_items env base_dir xs out ≡ ok out'
        → Grown (item_texts xs) out out'
    collect_items-Grown nil out out' h = Grown-nil out out' h
    collect_items-Grown (cons j r) out out' h =
        let (middle, h₁, h₂) =
          >>=-eq-ok (collect_secrets env base_dir j out) (collect_items env base_dir r) h in
        Grown-append (texts_of j) (item_texts r) out middle out'
          (collect_secrets-Grown j out middle h₁) (collect_items-Grown r middle out' h₂)

    collect_fields-Grown :
        (fs : Fields) (out out' : Dict Text Text)
        → collect_fields env base_dir fs out ≡ ok out'
        → Grown (field_texts fs) out out'
    collect_fields-Grown Fields.end out out' h = Grown-nil out out' h
    collect_fields-Grown (Fields.field k j r) out out' h =
        let (middle, h₁, h₂) =
          >>=-eq-ok (collect_secrets env base_dir j out) (collect_fields env base_dir r) h in
        Grown-append (texts_of j) (field_texts r) out middle out'
          (collect_secrets-Grown j out middle h₁) (collect_fields-Grown r middle out' h₂)

  -- When the secrets of a config are collected, every reference in it has an entry, at any depth,
  -- and every entry holds the value that its reference resolves to.
  pub collect_secrets-IsResolved :
      (raw : Json) (secrets : Dict Text Text)
      → collect_secrets env base_dir raw [] ≡ ok secrets
      → All (Collected secrets) (texts_of raw) × IsResolved secrets
  collect_secrets-IsResolved raw secrets h =
      let g = collect_secrets-Grown raw [] secrets h in (g.all_seen, g.resolved (λ s v q. cc))

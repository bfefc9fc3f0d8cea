-- ===== src/Registry/Resolve/Verified.antt =====
-- What holds of a registry object that was resolved.
use jarvis_awf.Prelude.{
  String, ◌≡◌, refl, sym, ap, ◌∙◌, Bool, true, false, not, Option, none, some, List, [], ◌∷◌, ◌==◌,
  eq_iff, find_first, if◌then◌else◌,
}
use mathlib.Core.Path.{subst}
use jarvis_awf.Exec.{
  Result, ok, err, plain, registry_integrity_error, registry_blocked_error,
  registry_object_not_found_error, pure, raise, lift, gets, ◌>>=◌,
}
use jarvis_awf.Exec.Inversion.{ok-injective}
use jarvis_awf.Database.{World, M, Source, config, data_dir, ObjectPath, IndexRow, read_disk}
use jarvis_awf.Registry.Index.{RegistryKind, kinds, found_or_unknown, RegistryFiles, index_row}
use jarvis_awf.Registry.Resolve.{
  is_blocked, check_digest, verify_row, verify, require_object, object_in, at, resolve_config,
  resolve_data, has_versions, resolve_kind, resolve_registry_object,
}

module _ (files : RegistryFiles) (w : World) where
  -- the row of the index, if there is one, does not block the object, and has its digest
  abbrev pub Intact : ObjectPath → Type 0
  Intact p =
      (row : IndexRow)
      → index_row p.kind p.name p.version w ≡ some row
      → (is_blocked row.trust_status ≡ false) × (files.digest p w.disk ≡ ok row.digest)

  pub record Verified (kind name version : String) (p : ObjectPath) : Type 0 where
    pub of_kind : p.kind ≡ kind
    pub of_name : p.name ≡ name
    pub of_version : p.version ≡ version
    pub there : files.has_object p w.disk ≡ true
    pub intact : Intact p
    -- the data root comes first
    pub first : p.source ≡ config → has_versions files kind name w ≡ false

  verify_row-Intact :
      (p q : ObjectPath) (o : Option IndexRow)
      → index_row p.kind p.name p.version w ≡ o
      → (verify_row files p o w).0 ≡ ok q
      → (q ≡ p) × Intact p
  unfolding verify_row check_digest
  verify_row-Intact p q none e h = (sym (ok-injective h), λ row g. absurd (cc (e, g)))
  verify_row-Intact p q (some row) e h = from (is_blocked row.trust_status) refl h
    where
      checked : Result String → M ObjectPath
      checked r v = elim r [ ok d ↦ check_digest files p row d v | err x ↦ (err x, v) ]

      intact :
          (b : Bool) (d : String)
          → is_blocked row.trust_status ≡ b
          → b ≡ false
          → files.digest p w.disk ≡ ok d
          → d ≡ row.digest
          → Intact p
      intact b d y f z g other k =
          let same : row ≡ other = cc (e, k) in
          (
            ap (λ r. is_blocked r.trust_status) (sym same) ∙ y ∙ f,
            z ∙ ap ok g ∙ ap (λ r. ok r.digest) same,
          )

      same_digest :
          (c : Bool) (d : String)
          → (d == row.digest) ≡ c
          → ((if not c then raise (plain registry_integrity_error "digest mismatch") else pure p)
              w).0
            ≡ ok q
          → (q ≡ p) × (d ≡ row.digest)
      same_digest true d y g = (sym (ok-injective g), (eq_iff d row.digest).0 y)
      same_digest false d y g = absurd (cc g)

      after :
          (r : Result String)
          → is_blocked row.trust_status ≡ false
          → files.digest p w.disk ≡ r
          → (checked r w).0 ≡ ok q
          → (q ≡ p) × Intact p
      after (err x) y z g = absurd (cc g)
      after (ok d) y z g =
          let s = same_digest (d == row.digest) d refl g in (s.0, intact false d y refl z (s.1))

      from :
          (b : Bool)
          → is_blocked row.trust_status ≡ b
          → ((if b
                then raise (plain registry_blocked_error "the registry object is blocked")
                else (read_disk (files.digest p) >>= check_digest files p row))
              w).0
            ≡ ok q
          → (q ≡ p) × Intact p
      from true y g = absurd (cc g)
      from false y g = after (files.digest p w.disk) y refl g

  object_in-Intact :
      (p q : ObjectPath)
      → (object_in files p w).0 ≡ ok q
      → (q ≡ p) × (files.has_object p w.disk ≡ true) × Intact p
  unfolding require_object verify
  object_in-Intact p q h = from (files.has_object p w.disk) refl h
    where
      from :
          (b : Bool)
          → files.has_object p w.disk ≡ b
          → (require_object files p b w).0 ≡ ok q
          → (q ≡ p) × (files.has_object p w.disk ≡ true) × Intact p
      from false y g = absurd (cc g)
      from true y g =
          let s = verify_row-Intact p q (index_row p.kind p.name p.version w) refl g in
          (s.0, y, s.1)

  object_in-Verified :
      (source : Source) (kind name version : String) (q : ObjectPath)
      → (source ≡ config → has_versions files kind name w ≡ false)
      → (object_in files (at source kind name version) w).0 ≡ ok q
      → Verified kind name version q
  object_in-Verified source kind name version q first h =
      let s = object_in-Intact (at source kind name version) q h in
      subst (Verified kind name version) (sym (s.0)) (record {
        of_kind = refl;
        of_name = refl;
        of_version = refl;
        there = s.1;
        intact = s.2;
        first = first;
      })

  resolve_kind-Verified :
      (k : RegistryKind) (name version : String) (q : ObjectPath)
      → (resolve_kind files name version k w).0 ≡ ok q
      → Verified k.key name version q
  unfolding resolve_kind resolve_data resolve_config
  resolve_kind-Verified k name version q h = from (has_versions files k.key name w) refl h
    where
      of_config :
          (b : Bool)
          → has_versions files k.key name w ≡ false
          → (resolve_config files k.key name version b w).0 ≡ ok q
          → Verified k.key name version q
      of_config false y g = absurd (cc g)
      of_config true y g = object_in-Verified config k.key name version q (λ c. y) g

      unless :
          (b : Bool)
          → has_versions files k.key name w ≡ false
          → ((if not b
                then (gets (λ v. files.has_entries k.key name v.disk)
                    >>= resolve_config files k.key name version)
                else raise (plain registry_object_not_found_error "no such registry object"))
              w).0
            ≡ ok q
          → Verified k.key name version q
      unless true y g = absurd (cc g)
      unless false y g = of_config (files.has_entries k.key name w.disk) y g

      from :
          (b : Bool)
          → has_versions files k.key name w ≡ b
          → (resolve_data files k name version b w).0 ≡ ok q
          → Verified k.key name version q
      from true y g = object_in-Verified data_dir k.key name version q (λ c. absurd (cc c)) g
      from false y g = unless k.data_only y g

  of_key :
      (ks : List RegistryKind) (kind : String) (k : RegistryKind)
      → find_first (λ j. j.key == kind) ks ≡ some k
      → k.key ≡ kind
  of_key [] kind k h = absurd (cc h)
  of_key (j ∷ js) kind k h = from (j.key == kind) refl h (of_key js kind k)
    where
      from :
          (b : Bool)
          → (j.key == kind) ≡ b
          → (if b then some j else find_first (λ i. i.key == kind) js) ≡ some k
          → (find_first (λ i. i.key == kind) js ≡ some k → k.key ≡ kind)
          → k.key ≡ kind
      from true y g f =
          let same : j ≡ k = cc g in ap (λ i. i.key) (sym same) ∙ (eq_iff j.key kind).0 y
      from false y g f = f g

  -- A registry object that is resolved is the one that was asked for, and it is there. Where the
  -- index has a row for it, the row does not block it, and has the digest of the object as it is. It
  -- comes from the configuration only if the data root has no version under that name.
  pub resolve_registry_object-Verified :
      (kind name version : String) (q : ObjectPath)
      → (resolve_registry_object files kind name version w).0 ≡ ok q
      → Verified kind name version q
  unfolding resolve_registry_object
  resolve_registry_object-Verified kind name version q h =
      from (find_first (λ j. j.key == kind) kinds) refl h
    where
      from :
          (o : Option RegistryKind)
          → find_first (λ j. j.key == kind) kinds ≡ o
          → ((lift (found_or_unknown o) >>= resolve_kind files name version) w).0 ≡ ok q
          → Verified kind name version q
      from none y g = absurd (cc g)
      from (some k) y g =
          subst (λ x. Verified x name version q) (of_key kinds kind k y)
            (resolve_kind-Verified k name version q g)

-- ===== src/Registry/Resolve/Reads.antt =====
-- Resolving reads, and writes nothing.
use jarvis_awf.Prelude.{String, Bool, true, false, not, Option, none, some, List, [], ◌∷◌, ◌==◌}
use jarvis_awf.Exec.{
  Result, raise, pure, lift, gets, plain, registry_blocked_error, registry_integrity_error,
  registry_object_not_found_error, ◌>>=◌,
}
use jarvis_awf.Exec.Inversion.{Preserves, >>=-Preserves}
use jarvis_awf.Exec.Preservation.{if-Preserves, lift-Preserves, read-Preserves}
use jarvis_awf.Database.{World, M, config, data_dir, ObjectPath, IndexRow, read_disk}
use jarvis_awf.Registry.Index.{RegistryKind, by_key, RegistryFiles, index_row}
use jarvis_awf.Registry.Resolve.{
  is_blocked, check_digest, verify_row, verify, require_object, object_in, at, resolve_config,
  resolve_data, has_versions, resolve_kind, resolve_registry_object, latest_of_config, latest_of,
  latest_of_kind, latest_version,
}

module _ (P : World → Type 0) where
  abbrev pub Keeps : {A : Type 0} → M A → Type 0
  Keeps m = Preserves P m

  pub disk-Keeps :
      {A B : Type 0} (f : _ → Result A) (g : A → M B)
      → ((a : A) → Keeps (g a))
      → Keeps (read_disk f >>= g)
  disk-Keeps f g k = >>=-Preserves P (read_disk f) g (λ w h. h) k

  module _ (files : RegistryFiles) where
    row-Keeps : (p : ObjectPath) (o : Option IndexRow) → Keeps (verify_row files p o)
    unfolding verify_row check_digest
    row-Keeps p none = λ w h. h
    row-Keeps p (some row) =
        if-Preserves P (is_blocked row.trust_status)
          (raise (plain registry_blocked_error "the registry object is blocked"))
          (read_disk (files.digest p) >>= check_digest files p row) (λ w h. h)
          (disk-Keeps (files.digest p) (check_digest files p row) (λ d.
            if-Preserves P (not (d == row.digest))
              (raise (plain registry_integrity_error "digest mismatch")) (pure p) (λ w h. h)
              (λ w h. h)))

    object-Keeps : (p : ObjectPath) → Keeps (object_in files p)
    unfolding require_object verify
    object-Keeps p =
        read-Preserves P (λ w. files.has_object p w.disk) (require_object files p) there
      where
        there : (b : Bool) → Keeps (require_object files p b)
        there false = λ w h. h
        there true =
            read-Preserves P (index_row p.kind p.name p.version) (verify_row files p) (row-Keeps p)

    config-Keeps :
        (kind name version : String) (b : Bool) → Keeps (resolve_config files kind name version b)
    unfolding resolve_config
    config-Keeps kind name version false = λ w h. h
    config-Keeps kind name version true = object-Keeps (at config kind name version)

    data-Keeps :
        (k : RegistryKind) (name version : String) (b : Bool)
        → Keeps (resolve_data files k name version b)
    unfolding resolve_data
    data-Keeps k name version true = object-Keeps (at data_dir k.key name version)
    data-Keeps k name version false =
        if-Preserves P (not k.data_only)
          (gets (λ w. files.has_entries k.key name w.disk)
            >>= resolve_config files k.key name version)
          (raise (plain registry_object_not_found_error "no such registry object"))
          (read-Preserves P (λ w. files.has_entries k.key name w.disk)
            (resolve_config files k.key name version) (config-Keeps k.key name version))
          (λ w h. h)

    pub resolve_registry_object-Keeps :
        (kind name version : String) → Keeps (resolve_registry_object files kind name version)
    unfolding resolve_registry_object resolve_kind
    resolve_registry_object-Keeps kind name version =
        >>=-Preserves P (lift (by_key kind)) (resolve_kind files name version)
          (lift-Preserves P (by_key kind))
          (λ k.
            read-Preserves P (has_versions files k.key name) (resolve_data files k name version)
              (data-Keeps k name version))

    of_config-Keeps : (vs : List String) → Keeps (latest_of_config files vs)
    unfolding latest_of_config
    of_config-Keeps [] = λ w h. h
    of_config-Keeps (v ∷ vs) = λ w h. h

    latest-Keeps :
        (k : RegistryKind) (name : String) (vs : List String) → Keeps (latest_of files k name vs)
    unfolding latest_of
    latest-Keeps k name (v ∷ vs) = λ w h. h
    latest-Keeps k name [] =
        if-Preserves P (not k.data_only)
          (gets (λ w. files.versions config k.key name w.disk) >>= latest_of_config files)
          (raise (plain registry_object_not_found_error "no such registry object"))
          (read-Preserves P (λ w. files.versions config k.key name w.disk) (latest_of_config files)
            of_config-Keeps)
          (λ w h. h)

    pub latest_version-Keeps : (kind name : String) → Keeps (latest_version files kind name)
    unfolding latest_version
    latest_version-Keeps kind name =
        >>=-Preserves P (lift (by_key kind)) (latest_of_kind files name)
          (lift-Preserves P (by_key kind))
          (λ k.
            read-Preserves P (λ w. files.versions data_dir k.key name w.disk)
              (latest_of files k name) (latest-Keeps k name))

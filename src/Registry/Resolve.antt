-- ===== src/Registry/Resolve.antt =====
-- backend/src/awf/registry/resolve.py, and latest_version of backend/src/awf/registry/index.py. The
-- database that `_verify` reads is the one of the caller.
pub mod Verified
pub mod Reads
use Prim.Native.Nat.{Ordering}
use Prim.Native.String.{compare as compare_text}
use jarvis_awf.Prelude.{
  ℕ, String, ◌<>◌, Bool, true, false, not, ◌&&◌, Option, none, some, List, [], ◌∷◌, ◌==◌, any,
  if◌then◌else◌,
}
use jarvis_awf.Prelude.Int.{ℤ, ltb_ℤ}
use jarvis_awf.Prelude.Text.{split}
use jarvis_awf.Json.Convert.{int_of_text}
use jarvis_awf.Exec.{
  Exn, Result, ok, err, plain, registry_object_not_found_error, registry_blocked_error,
  registry_integrity_error, Exec, pure, raise, lift, gets, ◌>>=◌,
}
use jarvis_awf.Database.{
  World, M, Source, config, data_dir, TrustStatus, blocked, ObjectPath, IndexRow, read_disk,
}
use jarvis_awf.Registry.Index.{RegistryKind, by_key, RegistryFiles, index_row}

abbrev pub is_blocked : Option TrustStatus → Bool
is_blocked (some blocked) = true
is_blocked _ = false

abbrev not_found : Exn
not_found = plain registry_object_not_found_error "no such registry object"

abbrev pub at : Source → String → String → String → ObjectPath
at source kind name version = record {
  source = source;
  kind = kind;
  name = name;
  version = version;
}

module _ (files : RegistryFiles) where
  unfoldable pub check_digest : ObjectPath → IndexRow → String → M ObjectPath
  check_digest path row actual_digest =
      if not (actual_digest == row.digest)
      then raise (plain registry_integrity_error "digest mismatch")
      else pure path

  -- on the row of the index
  unfoldable pub verify_row : ObjectPath → Option IndexRow → M ObjectPath
  verify_row path none = pure path
  verify_row path (some row) =
      if is_blocked row.trust_status
      then raise (plain registry_blocked_error "the registry object is blocked")
      else (read_disk (files.digest path) >>= check_digest path row)

  -- _verify
  unfoldable pub verify : ObjectPath → M ObjectPath
  verify path = gets (index_row path.kind path.name path.version) >>= verify_row path

  unfoldable pub require_object : ObjectPath → Bool → M ObjectPath
  require_object path false = raise not_found
  require_object path true = verify path

  abbrev pub object_in : ObjectPath → M ObjectPath
  object_in path = gets (λ w. files.has_object path w.disk) >>= require_object path

  -- where the data root has nothing of that name
  unfoldable pub resolve_config : String → String → String → Bool → M ObjectPath
  resolve_config kind name version false = raise not_found
  resolve_config kind name version true = object_in (at config kind name version)

  unfoldable pub resolve_data : RegistryKind → String → String → Bool → M ObjectPath
  resolve_data kind name version true = object_in (at data_dir kind.key name version)
  resolve_data kind name version false =
      if not kind.data_only
      then (gets (λ w. files.has_entries kind.key name w.disk)
          >>= resolve_config kind.key name version)
      else raise not_found

  abbrev pub has_versions : String → String → World → Bool
  has_versions kind name w = any (λ v. not (v == "")) (files.versions data_dir kind name w.disk)

  unfoldable pub resolve_kind : String → String → RegistryKind → M ObjectPath
  resolve_kind name version kind =
      gets (has_versions kind.key name) >>= resolve_data kind name version

  -- the path and its source
  unfoldable pub resolve_registry_object : String → String → String → M ObjectPath
  resolve_registry_object kind name version = lift (by_key kind) >>= resolve_kind name version

-- _version_key: numbers are above texts
pub data VersionKey : Type 0 where
  numbers : List ℤ → VersionKey
  text : String → VersionKey

abbrev with_part : Result ℤ → Option (List ℤ) → Option (List ℤ)
with_part (err e) found = none
with_part (ok n) none = none
with_part (ok n) (some ns) = some (n ∷ ns)

parts_of : List String → Option (List ℤ)
parts_of [] = some []
parts_of (s ∷ ss) = with_part (int_of_text s) (parts_of ss)

unfoldable pub version_key : String → VersionKey
unfolding parts_of
version_key version = elim (parts_of (split b'.' version)) [
  | none ↦ VersionKey.text version
  | some ns ↦ VersionKey.numbers ns
]

numbers_lt : List ℤ → List ℤ → Bool
numbers_lt [] [] = false
numbers_lt [] (m ∷ ms) = true
numbers_lt (n ∷ ns) [] = false
numbers_lt (n ∷ ns) (m ∷ ms) =
    let rest = numbers_lt ns ms in if ltb_ℤ n m then true else if ltb_ℤ m n then false else rest

unfoldable pub key_lt : VersionKey → VersionKey → Bool
unfolding numbers_lt
key_lt (VersionKey.text s) (VersionKey.text t) = elim (compare_text s t) [
  | Ordering.lt ↦ true
  | _ ↦ false
]
key_lt (VersionKey.text s) (VersionKey.numbers ms) = true
key_lt (VersionKey.numbers ns) (VersionKey.text t) = false
key_lt (VersionKey.numbers ns) (VersionKey.numbers ms) = numbers_lt ns ms

-- `max(versions, key=_version_key)`: the first of the greatest, from one found so far
unfoldable pub greatest : String → List String → String
greatest found [] = found
greatest found (v ∷ vs) =
    greatest (if key_lt (version_key found) (version_key v) then v else found) vs

module _ (files : RegistryFiles) where
  unfoldable pub latest_of_config : List String → M String
  latest_of_config [] = raise (plain registry_object_not_found_error "no such registry object")
  latest_of_config (v ∷ vs) = pure (greatest v vs)

  unfoldable pub latest_of : RegistryKind → String → List String → M String
  latest_of kind name (v ∷ vs) = pure (greatest v vs)
  latest_of kind name [] =
      if not kind.data_only
      then (gets (λ w. files.versions config kind.key name w.disk) >>= latest_of_config)
      else raise (plain registry_object_not_found_error "no such registry object")

  abbrev pub latest_of_kind : String → RegistryKind → M String
  latest_of_kind name kind =
      gets (λ w. files.versions data_dir kind.key name w.disk) >>= latest_of kind name

  unfoldable pub latest_version : String → String → M String
  latest_version kind name = lift (by_key kind) >>= latest_of_kind name

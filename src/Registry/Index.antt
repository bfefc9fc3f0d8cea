-- ===== src/Registry/Index.antt =====
-- backend/src/awf/registry/kinds.py and backend/src/awf/registry/index.py. What the two roots hold
-- is a parameter.
pub mod Trust
use jarvis_awf.Prelude.{
  ℕ, ◌+◌, String, Bool, true, false, not, ◌&&◌, Option, none, some, List, [], ◌∷◌, ◌==◌, find_first,
  if◌then◌else◌,
}
use jarvis_awf.Exec.{
  Exn, Result, ok, err, plain, unknown_registry_kind_error, Exec, pure, lift, gets, modify, ◌>>=◌,
  ◌>>◌,
}
use jarvis_awf.Database.{
  World, M, Source, config, data_dir, TrustStatus, ObjectPath, IndexRow, read_disk, utc_now_rfc3339,
}

pub data Layout : Type 0 where
  yaml markdown directory : Layout

pub record RegistryKind : Type 0 where
  pub key : String
  pub layout : Layout
  pub data_only : Bool

abbrev kind_of : Layout → String → RegistryKind
kind_of layout key = record { key = key; layout = layout; data_only = false }

-- KINDS
abbrev pub kinds : List RegistryKind
kinds =
    kind_of yaml "workflows"
    ∷ kind_of markdown "agents"
    ∷ kind_of yaml "capabilities"
    ∷ kind_of yaml "mcp"
    ∷ kind_of directory "skills"
    ∷ kind_of yaml "voice-profiles"
    ∷ kind_of yaml "model-profiles"
    ∷ kind_of yaml "personas"
    ∷ kind_of yaml "memory-profiles"
    ∷ kind_of yaml "semantic-memories"
    ∷ kind_of yaml "hardware-voice-manifests"
    ∷ kind_of yaml "llm-servers"
    ∷ []

abbrev pub found_or_unknown : Option RegistryKind → Result RegistryKind
found_or_unknown none = err (plain unknown_registry_kind_error "unknown registry kind")
found_or_unknown (some k) = ok k

abbrev pub by_key : String → Result RegistryKind
by_key key = found_or_unknown (find_first (λ k. k.key == key) kinds)

pub record RegistryFiles : Type 0 where
  -- the names of the directories of a kind under a root, sorted
  pub names : Source → String → ℕ → List String
  -- `version_names`, and no version where there is no directory
  pub versions : Source → String → String → ℕ → List String
  -- `any(config_dir.iterdir())`
  pub has_entries : String → String → ℕ → Bool
  pub has_object : ObjectPath → ℕ → Bool
  -- compute_digest
  pub digest : ObjectPath → ℕ → Result String

abbrev pub has_key : String → String → String → IndexRow → Bool
has_key kind name version r = r.kind == kind && (r.name == name && (r.version == version))

-- index_row
unfoldable pub index_row : String → String → String → World → Option IndexRow
index_row kind name version w = find_first (has_key kind name version) w.registry_index

-- _DEFAULT_TRUST_STATUS
abbrev pub default_trust_status : Source → TrustStatus
default_trust_status config = TrustStatus.trusted
default_trust_status data_dir = TrustStatus.local

-- ON CONFLICT(kind, name, version) DO UPDATE
abbrev pub refreshed : IndexRow → IndexRow → IndexRow
refreshed row r = record r {
  digest = row.digest;
  path = row.path;
  source = row.source;
  indexed_at = row.indexed_at;
}

-- the INSERT
unfoldable pub upsert_row : IndexRow → List IndexRow → List IndexRow
upsert_row row [] = row ∷ []
upsert_row row (r ∷ rs) =
    let rest = upsert_row row rs in
    if has_key row.kind row.name row.version r then refreshed row r ∷ rs else r ∷ rest

abbrev new_row : ObjectPath → String → ℕ → IndexRow
new_row path digest now = record {
  kind = path.kind;
  name = path.name;
  version = path.version;
  digest = digest;
  source = path.source;
  path = path;
  trust_status = some (default_trust_status path.source);
  indexed_at = now;
}

-- _upsert
unfoldable pub upsert : ObjectPath → String → M Unit
upsert path digest = utc_now_rfc3339 >>= λ now.
    modify
      (λ w. record w { registry_index = upsert_row (new_row path digest now) w.registry_index })

-- the UPDATE
unfoldable pub put_trust : String → String → String → TrustStatus → List IndexRow → List IndexRow
put_trust kind name version status [] = []
put_trust kind name version status (r ∷ rs) =
    let rest = put_trust kind name version status rs in
    (if has_key kind name version r then record r { trust_status = some status } else r) ∷ rest

unfoldable pub set_trust_status : String → String → String → TrustStatus → M (Option IndexRow)
set_trust_status kind name version status =
    modify (λ w. record w { registry_index = put_trust kind name version status w.registry_index })
    >> gets (index_row kind name version)

-- how many objects of a kind each root had
pub record KindCount : Type 0 where
  pub kind : String
  pub of_config : ℕ
  pub of_data : ℕ

module _ (files : RegistryFiles) where
  abbrev pub index_version : ObjectPath → M Unit
  index_version path = read_disk (files.digest path) >>= upsert path

  -- the loops of reindex, with the number of the objects they indexed
  unfoldable pub index_versions : Source → String → String → List String → M ℕ
  index_versions source kind name [] = pure 0
  index_versions source kind name (v ∷ vs) =
      index_version (record { source = source; kind = kind; name = name; version = v })
      >> (index_versions source kind name vs >>= λ n. pure (n + 1))

  unfoldable pub index_names : Source → String → List String → M ℕ
  index_names source kind [] = pure 0
  index_names source kind (name ∷ names) =
      gets (λ w. files.versions source kind name w.disk)
      >>= index_versions source kind name
      >>= λ n. index_names source kind names >>= λ m. pure (n + m)

  unfoldable pub index_root : Source → RegistryKind → M ℕ
  index_root config kind =
      if kind.data_only
      then pure 0
      else (gets (λ w. files.names config kind.key w.disk) >>= index_names config kind.key)
  index_root data_dir kind =
      gets (λ w. files.names data_dir kind.key w.disk) >>= index_names data_dir kind.key

  unfoldable pub index_kinds : List RegistryKind → M (List KindCount)
  index_kinds [] = pure []
  index_kinds (kind ∷ rest) = index_root config kind >>= λ n. index_root data_dir kind >>= λ m.
      index_kinds rest >>= λ counts.
      pure (record { kind = kind.key; of_config = n; of_data = m } ∷ counts)

  unfoldable pub reindex : M (List KindCount)
  reindex = index_kinds kinds

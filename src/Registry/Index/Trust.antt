-- ===== src/Registry/Index/Trust.antt =====
-- What an operator decided about a registry object survives a rebuild of the index.
use jarvis_awf.Prelude.{
  ℕ, ◌+◌, String, ◌≡◌, Bool, true, false, Option, none, some, List, [], ◌∷◌, find_first,
  if◌then◌else◌,
}
use jarvis_awf.Exec.{pure, gets, ◌>>=◌}
use jarvis_awf.Exec.Inversion.{Preserves, >>=-Preserves}
use jarvis_awf.Database.{
  World, M, Source, config, data_dir, TrustStatus, ObjectPath, IndexRow, read_disk,
}
use jarvis_awf.Registry.Index.{
  RegistryKind, kinds, refreshed, RegistryFiles, has_key, index_row, upsert_row, upsert, KindCount,
  index_version, index_versions, index_names, index_root, index_kinds, reindex,
}

-- the row's trust status, with none for no row
abbrev pub trust_of : Option IndexRow → Option (Option TrustStatus)
trust_of none = none
trust_of (some r) = some r.trust_status

-- an object is indexed with this trust status
abbrev pub Trusts : String → String → String → Option TrustStatus → World → Type 0
Trusts kind name version t w = trust_of (index_row kind name version w) ≡ some t

module _ (kind name version : String) (t : Option TrustStatus) where
  upsert_row-trust :
      (row : IndexRow) (rs : List IndexRow)
      → trust_of (find_first (has_key kind name version) rs) ≡ some t
      → trust_of (find_first (has_key kind name version) (upsert_row row rs)) ≡ some t
  unfolding upsert_row
  upsert_row-trust row [] h = absurd (cc h)
  upsert_row-trust row (r ∷ rs) h =
      from (has_key row.kind row.name row.version r) (upsert_row-trust row rs)
    where
      at : IndexRow → Bool
      at = has_key kind name version

      kept :
          (b : Bool) (o : Option IndexRow)
          → trust_of (if b then some r else o) ≡ some t
          → trust_of (if b then some (refreshed row r) else o) ≡ some t
      kept true o h = h
      kept false o h = h

      passed :
          (b : Bool) (o o' : Option IndexRow)
          → trust_of (if b then some r else o) ≡ some t
          → (trust_of o ≡ some t → trust_of o' ≡ some t)
          → trust_of (if b then some r else o') ≡ some t
      passed true o o' h k = h
      passed false o o' h k = k h

      from :
          (a : Bool)
          → (trust_of (find_first at rs) ≡ some t
              → trust_of (find_first at (upsert_row row rs)) ≡ some t)
          → trust_of (find_first at (if a then refreshed row r ∷ rs else r ∷ upsert_row row rs))
            ≡ some t
      from true k = kept (at r) (find_first at rs) h
      from false k = passed (at r) (find_first at rs) (find_first at (upsert_row row rs)) h k

  abbrev Keeps : {A : Type 0} → M A → Type 0
  Keeps m = Preserves (Trusts kind name version t) m

  upsert-Keeps : (path : ObjectPath) (digest : String) → Keeps (upsert path digest)
  unfolding upsert index_row
  upsert-Keeps path digest w h = upsert_row-trust _ w.registry_index h

  module _ (files : RegistryFiles) where
    versions-Keeps :
        (source : Source) (k n : String) (vs : List String)
        → Keeps (index_versions files source k n vs)
    unfolding index_versions
    versions-Keeps source k n [] = λ w h. h
    versions-Keeps source k n (v ∷ vs) =
        >>=-Preserves Trusted (index_version files path)
          (λ u. index_versions files source k n vs >>= λ m. pure (m + 1)) one
          (λ u.
            >>=-Preserves Trusted (index_versions files source k n vs) (λ m. pure (m + 1))
              (versions-Keeps source k n vs) (λ m w h. h))
      where
        Trusted : World → Type 0
        Trusted = Trusts kind name version t

        path : ObjectPath
        path = record { source = source; kind = k; name = n; version = v }

        one : Keeps (read_disk (files.digest path) >>= upsert path)
        one =
            >>=-Preserves Trusted (read_disk (files.digest path)) (upsert path) (λ w h. h)
              (upsert-Keeps path)

    names-Keeps :
        (source : Source) (k : String) (ns : List String) → Keeps (index_names files source k ns)
    unfolding index_names
    names-Keeps source k [] = λ w h. h
    names-Keeps source k (n ∷ ns) =
        >>=-Preserves Trusted (here >>= index_versions files source k n)
          (λ a. index_names files source k ns >>= λ b. pure (a + b))
          (>>=-Preserves Trusted here (index_versions files source k n) (λ w h. h)
            (versions-Keeps source k n))
          (λ a.
            >>=-Preserves Trusted (index_names files source k ns) (λ b. pure (a + b))
              (names-Keeps source k ns) (λ b w h. h))
      where
        Trusted : World → Type 0
        Trusted = Trusts kind name version t

        here : M (List String)
        here = gets (λ w. files.versions source k n w.disk)

    root-Keeps : (source : Source) (k : RegistryKind) → Keeps (index_root files source k)
    unfolding index_root
    root-Keeps config k = unless k.data_only
      where
        unless :
            (b : Bool)
            → Keeps (
                if b
                then pure 0
                else (gets (λ w. files.names config k.key w.disk)
                    >>= index_names files config k.key))
        unless true = λ w h. h
        unless false =
            >>=-Preserves (Trusts kind name version t) (gets (λ w. files.names config k.key w.disk))
              (index_names files config k.key) (λ w h. h) (names-Keeps config k.key)
    root-Keeps data_dir k =
        >>=-Preserves (Trusts kind name version t) (gets (λ w. files.names data_dir k.key w.disk))
          (index_names files data_dir k.key) (λ w h. h) (names-Keeps data_dir k.key)

    kinds-Keeps : (ks : List RegistryKind) → Keeps (index_kinds files ks)
    unfolding index_kinds
    kinds-Keeps [] = λ w h. h
    kinds-Keeps (k ∷ ks) =
        >>=-Preserves Trusted (index_root files config k)
          (λ n. index_root files data_dir k >>= λ m. rest n m) (root-Keeps config k)
          (λ n.
            >>=-Preserves Trusted (index_root files data_dir k) (rest n) (root-Keeps data_dir k)
              (λ m.
                >>=-Preserves Trusted (index_kinds files ks) (λ counts. pure (counted n m ∷ counts))
                  (kinds-Keeps ks) (λ cs w h. h)))
      where
        Trusted : World → Type 0
        Trusted = Trusts kind name version t

        counted : ℕ → ℕ → KindCount
        counted n m = record { kind = k.key; of_config = n; of_data = m }

        rest : ℕ → ℕ → M (List KindCount)
        rest n m = index_kinds files ks >>= λ counts. pure (counted n m ∷ counts)

    -- A rebuild of the index leaves the trust status of every object that is indexed as it was,
    -- whatever the files hold now, and whether or not a file cannot be read half way.
    pub reindex-trust :
        (w : World) → Trusts kind name version t w → Trusts kind name version t (reindex files w).1
    unfolding reindex
    reindex-trust w h = kinds-Keeps kinds w h

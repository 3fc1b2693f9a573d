-- ===== src/Audit/Snapshot/Inventory/Genuine.antt =====
-- What the listed snapshots satisfy.
use win_profile.Base.{
  ℕ, ◌≡◌, ◌≤◌, inl, inr, refl, ap, ◌∙◌, Bool, true, false, not, Bool-cases, All, List, [], ◌∷◌,
  ◌++◌, Option, none, some, Result, ok, err, map_err, lift, with_error, with_error_ok, raise_if,
  Text, codes, text_eq, text_eq_iff, ends_with, leb, arith,
}
use win_profile.Base.Hoare.{Gives, Gives-bind, Gives-pure}
use win_profile.Audit.Rollback.{FileIdentity, identity_eq}
use win_profile.Audit.Snapshot.{
  invalid_inventory, storage_error, io_error, Metadata, Snapshots, metadata_name,
}
use win_profile.Audit.Snapshot.Inventory.{
  insert_newest, sort_newest, expected_identity, validate_inventory_entry, without_artifact,
  read_entry, read_entries, list_entries, list_snapshots,
}

-- The newest first.
abbrev pub IsNewestFirst : {F : Type 0} → List (Metadata F) → Type 0
IsNewestFirst [] = Unit {0}
IsNewestFirst (m ∷ ms) = All (λ n. n.timestamp ≤ m.timestamp) ms × IsNewestFirst ms

All-insert :
    {F : Type 0} (P : Metadata F → Type 0) (m : Metadata F) (ms : List (Metadata F))
    → P m
    → All P ms
    → All P (insert_newest m ms)
unfolding insert_newest
All-insert P m [] p ps = (p, tt)
All-insert P m (n ∷ ms) p ps = elim (Bool-cases (leb n.timestamp m.timestamp)) [
  | inl first ↦ rw first (p, ps)
  | inr later ↦ rw later (ps.0, All-insert P m ms p ps.1)
]

All-below :
    {F : Type 0} (a b : ℕ) (ms : List (Metadata F))
    → a ≤ b
    → All (λ n. n.timestamp ≤ a) ms
    → All (λ n. n.timestamp ≤ b) ms
All-below a b [] h ps = tt
All-below a b (m ∷ ms) h ps = (omega (arith, h, ps.0), All-below a b ms h ps.1)

insert_newest-IsNewestFirst :
    {F : Type 0} (m : Metadata F) (ms : List (Metadata F))
    → IsNewestFirst ms
    → IsNewestFirst (insert_newest m ms)
unfolding insert_newest
insert_newest-IsNewestFirst m [] s = (tt, tt)
insert_newest-IsNewestFirst m (n ∷ ms) s = elim (Bool-cases (leb n.timestamp m.timestamp)) [
  | inl first ↦
      let below : n.timestamp ≤ m.timestamp = ground (arith, first) in
      rw first ((below, All-below n.timestamp m.timestamp ms below s.0), s)
  | inr later ↦ rw later (
    All-insert (λ k. k.timestamp ≤ n.timestamp) m ms (ground (arith, later)) s.0,
    insert_newest-IsNewestFirst m ms s.1,
  )
]

sort_newest-IsNewestFirst : {F : Type 0} (ms : List (Metadata F)) → IsNewestFirst (sort_newest ms)
unfolding sort_newest
sort_newest-IsNewestFirst [] = tt
sort_newest-IsNewestFirst (m ∷ ms) =
    insert_newest-IsNewestFirst m (sort_newest ms) (sort_newest-IsNewestFirst ms)

All-sort :
    {F : Type 0} (P : Metadata F → Type 0) (ms : List (Metadata F))
    → All P ms
    → All P (sort_newest ms)
unfolding sort_newest
All-sort P [] ps = tt
All-sort P (m ∷ ms) ps = All-insert P m (sort_newest ms) ps.0 (All-sort P ms ps.1)

abbrev identity_of : ℕ → ℕ → FileIdentity
identity_of volume index = record { volume_serial = volume; file_index = index }

identity_eq_sound : (a b : FileIdentity) → identity_eq a b ≡ true → a ≡ b
identity_eq_sound a b h =
    let volume : a.volume_serial ≡ b.volume_serial = ground (arith, h) in
    let index : a.file_index ≡ b.file_index = ground (arith, h) in
    ap (λ v. identity_of v a.file_index) volume ∙ ap (identity_of b.volume_serial) index

module _ {S : Type 0} (F : Snapshots S) where
  passed :
      {E : Type 0} (b : Bool) (e : E) (s : S) (u : Unit {0})
      → (raise_if (not b) e s).0 ≡ ok u
      → b ≡ true
  passed true e s u h = refl
  passed false e s u h = ground arith

  -- A snapshot whose hive was seen with the identity and the digest that were recorded, and that
  -- cannot be restored.
  pub record IsGenuine (metadata : Metadata F.File) : Type 0 where
    pub is_hive : ends_with metadata.snapshot_file_name (codes ".hiv") ≡ true
    pub path : Text
    pub named : F.child_path metadata.snapshot_file_name ≡ ok path
    pub before : S
    pub hive : F.File
    pub opened : (F.open_file metadata.snapshot_file_name before).0 ≡ ok hive
    pub during : S
    pub identified : (F.file_identity hive path during).0 ≡ ok (expected_identity metadata)
    pub after : S
    pub hashed : (F.sha256_file hive after).0 ≡ ok metadata.sha256
    pub unprotected : metadata.protected_artifact ≡ none

  map_err_ok : {E G A : Type 0} (f : E → G) (r : Result E A) (a : A) → map_err f r ≡ ok a → r ≡ ok a
  map_err_ok f (ok b) a h = ground arith
  map_err_ok f (err e) a h = cc

  Gives-validate :
      (name : Text) (m : Metadata F.File)
      → m.protected_artifact ≡ none
      → Gives (λ (_ : Unit {0}). IsGenuine m) (validate_inventory_entry F name m)
  unfolding validate_inventory_entry
  Gives-validate name m bare =
      Gives-bind _
        (raise_if (not (ends_with m.snapshot_file_name (codes ".hiv")))
          (invalid_inventory name (codes "snapshot file name must be a .hiv component")))
        _
        (λ u0 s0 hiv.
          Gives-bind _
            (raise_if (not (text_eq name (metadata_name m.snapshot_file_name))) (
              invalid_inventory name
                (codes "metadata name does not match associated hive " ++ m.snapshot_file_name)))
            _
            (λ _ _ _.
              Gives-bind _
                (lift (
                  map_err (λ e. invalid_inventory name (F.storage_text e))
                    (F.child_path m.snapshot_file_name)))
                _
                (λ path _ named.
                  Gives-bind _
                    (with_error (λ e. invalid_inventory name (F.storage_text e))
                      (F.open_file m.snapshot_file_name))
                    _
                    (λ hive s1 opened.
                      Gives-bind _
                        (with_error (λ e. invalid_inventory name (F.storage_text e))
                          (F.file_identity hive path))
                        _
                        (λ identity s2 identified.
                          Gives-bind _
                            (raise_if (not (identity_eq identity (expected_identity m))) (
                              invalid_inventory name
                                (codes "associated hive identity does not match metadata")))
                            _
                            (λ u3 s3 same.
                              Gives-bind _
                                (with_error (λ e. invalid_inventory name (F.error_text e))
                                  (F.sha256_file hive))
                                _
                                (λ digest s4 hashed. record {
                                  holds = λ s5 u5 matches. record {
                                    is_hive = passed _ _ s0 u0 hiv;
                                    path = path;
                                    named =
                                        map_err_ok (λ e. invalid_inventory name (F.storage_text e))
                                          _ path named;
                                    before = s1;
                                    hive = hive;
                                    opened =
                                        with_error_ok _ (F.open_file m.snapshot_file_name) s1 hive
                                          opened;
                                    during = s2;
                                    identified =
                                        with_error_ok _ (F.file_identity hive path) s2 identity
                                          identified
                                        ∙ ap ok (
                                            identity_eq_sound identity (expected_identity m)
                                              (passed _ _ s3 u3 same));
                                    after = s4;
                                    hashed =
                                        with_error_ok _ (F.sha256_file hive) s4 digest hashed
                                        ∙ ap ok (
                                            (text_eq_iff digest m.sha256).0
                                              (passed _ _ s5 u5 matches));
                                    unprotected = bare;
                                  };
                                })))))))

  Gives-read_entry : (name : Text) → Gives IsGenuine (read_entry F name)
  unfolding read_entry
  Gives-read_entry name =
      Gives-bind _ (with_error (λ e. storage_error (F.storage_text e)) (F.open_file name)) _
        (λ file _ _. Gives-bind _ (with_error io_error (F.from_reader file)) _ (λ m _ _.
          Gives-bind _ (validate_inventory_entry F name (without_artifact F m)) _ (λ u s h.
            Gives-pure _ (without_artifact F m)
              ((Gives-validate name (without_artifact F m) refl).holds s u h))))

  Gives-read_entries : (names : List (Option Text)) → Gives (All IsGenuine) (read_entries F names)
  unfolding read_entries
  Gives-read_entries [] = Gives-pure _ [] tt
  Gives-read_entries (none ∷ names) = Gives-read_entries names
  Gives-read_entries (some name ∷ names) =
      elim (Bool-cases (not (ends_with name (codes ".json")))) [
        | inl skipped ↦ rw skipped (Gives-read_entries names)
        | inr taken ↦ rw taken (
            Gives-bind _ (read_entry F name) _ (λ m s h.
              Gives-bind _ (read_entries F names) _ (λ others t g. Gives-pure _ (m ∷ others) (
                (Gives-read_entry name).holds s m h,
                (Gives-read_entries names).holds t others g,
              ))))
      ]

  Gives-list_entries : Gives (λ ms. All IsGenuine ms × IsNewestFirst ms) (list_entries F)
  unfolding list_entries
  Gives-list_entries =
      Gives-bind _ (with_error (λ e. storage_error (F.storage_text e)) F.entries) _ (λ names _ _.
        Gives-bind _ (read_entries F names) _ (λ results s h. Gives-pure _ (sort_newest results) (
          All-sort IsGenuine results ((Gives-read_entries names).holds s results h),
          sort_newest-IsNewestFirst results,
        )))

  -- Every snapshot that is listed is a hive that was seen under its name with the identity and the
  -- digest that its metadata records, and has no artifact that a restoration would take; the newest
  -- come first.
  pub list_snapshots-IsGenuine :
      (s : S) (ms : List (Metadata F.File))
      → (list_snapshots F s).0 ≡ ok ms
      → All IsGenuine ms × IsNewestFirst ms
  unfolding list_snapshots
  list_snapshots-IsGenuine =
      (Gives-bind _ (with_error storage_error F.acquire_lock)
        (λ _ s. let (r, t) = list_entries F s in (r, F.release_lock t))
        (λ _ _ _. record { holds = Gives-list_entries.holds })).holds

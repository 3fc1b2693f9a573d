-- ===== src/Migration/Copy/Grows.antt =====
-- The files of a tree, and programs that add entries to the manifest.
use win_profile.Base.{
  ℕ, ◌≡◌, refl, sym, ap, ◌∙◌, Bool, true, false, List, [], ◌∷◌, ◌++◌, append-nil, append_assoc,
  length, Result, ok, err, Program, raise, ◌>>=◌, continue, raise_if, Text,
}
use win_profile.Base.Hoare.{Maintains}
use win_profile.Profiles.DirectorySize.{join_path}
use win_profile.Profiles.DirectorySize.Sum.{clamp}
use win_profile.Migration.Errors.{MigrationError}
use win_profile.Migration.Transaction.{
  ManifestEntry, CopyTransaction, display_relative_path, observe_copy,
}
use win_profile.Migration.Copy.Stable.{IsStable, Maintains-check_cancelled}
use win_profile.Migration.Copy.{
  Reads, end, failed, chunk, Source, unlisted, listed, Items, nil, file, denied_directory,
  directory, Target, Copying, on_state, check_cancelled,
}

-- The bytes of a file, and the files of a tree as a manifest has them.
abbrev pub contents : Reads → List ℕ
contents end = []
contents (failed e) = []
contents (chunk bytes reads) = bytes ++ contents reads

abbrev pub entry_of : (List ℕ → Text) → Text → Reads → ManifestEntry
entry_of hash path reads = record {
  relative_path = display_relative_path path;
  size = clamp (length (contents reads));
  sha256 = hash (contents reads);
}

abbrev mutual
  pub files_of : (List ℕ → Text) → Text → Source → List ManifestEntry
  files_of hash path (unlisted e) = []
  files_of hash path (listed items) = item_files hash path items

  pub item_files : (List ℕ → Text) → Text → Items → List ManifestEntry
  item_files hash path nil = []
  item_files hash path (file name (ok reads) items) =
      entry_of hash (join_path path name) reads ∷ item_files hash path items
  item_files hash path (file name (err e) items) = item_files hash path items
  item_files hash path (denied_directory name e items) = item_files hash path items
  item_files hash path (directory name source items) =
      files_of hash (join_path path name) source ++ item_files hash path items

pub raise_if_state : {W E : Type 0} (b : Bool) (e : E) (w : W) → (raise_if b e w).1 ≡ w
raise_if_state true e w = refl
raise_if_state false e w = refl

module _ {S : Type 0} (T : Target S) where
  -- A program that ends well adds these entries to the manifest.
  pub record Grows {A : Type 0} (m : Copying T A) (entries : List ManifestEntry) : Type 0 where
    pub holds :
        (w : S × CopyTransaction T.Created) (a : A)
        → (m w).0 ≡ ok a
        → (m w).1.1.manifest ≡ w.1.manifest ++ entries

  pub Grows-bind :
      {A B : Type 0} (m : Copying T A) (f : A → Copying T B) (entries more : List ManifestEntry)
      → Grows m entries
      → ((a : A) (w : S × CopyTransaction T.Created) → (m w).0 ≡ ok a → Grows (f a) more)
      → Grows (m >>= f) (entries ++ more)
  Grows-bind {A} {B} m f entries more g k = record {
    holds = λ w b h. go w (m w) (g.holds w) (λ a. k a w) b h;
  }
    where
      go :
          (w : S × CopyTransaction T.Created)
          (r : Result MigrationError A × (S × CopyTransaction T.Created))
          → ((a : A) → r.0 ≡ ok a → r.1.1.manifest ≡ w.1.manifest ++ entries)
          → ((a : A) → r.0 ≡ ok a → Grows (f a) more)
          → (b : B) → (continue r f).0 ≡ ok b
          → (continue r f).1.1.manifest ≡ w.1.manifest ++ (entries ++ more)
      go w (ok a, v) g k b h =
          (k a refl).holds v b h
          ∙ (ap (λ es. es ++ more) (g a refl) ∙ append_assoc w.1.manifest entries more)
      go w (err e, v) g k b h = cc

  -- The first part adds nothing.
  pub Grows-after :
      {A B : Type 0} (m : Copying T A) (f : A → Copying T B) (more : List ManifestEntry)
      → Grows m []
      → ((a : A) (w : S × CopyTransaction T.Created) → (m w).0 ≡ ok a → Grows (f a) more)
      → Grows (m >>= f) more
  Grows-after m f more g k = Grows-bind m f [] more g k

  pub Grows-on_state :
      {E A : Type 0} (f : E → MigrationError) (m : Program S E A) → Grows (on_state T f m) []
  Grows-on_state f m = record { holds = λ w a h. sym (append-nil w.1.manifest) }

  pub Grows-still :
      {A : Type 0} (m : Copying T A)
      → ((w : S × CopyTransaction T.Created) → (m w).1.1.manifest ≡ w.1.manifest)
      → Grows m []
  Grows-still m same = record { holds = λ w a h. same w ∙ sym (append-nil w.1.manifest) }

  abbrev pub HasManifest : List ManifestEntry → S × CopyTransaction T.Created → Type 0
  HasManifest es w = w.1.manifest ≡ es

  pub IsStable-HasManifest : (es : List ManifestEntry) → IsStable T (HasManifest es)
  unfolding observe_copy
  IsStable-HasManifest es = record {
    wrote = λ output bytes s t p. p;
    flushed = λ output s t p. p;
    synced = λ output s t p. p;
    sought = λ output s t p. p;
    measured = λ output s t p. p;
    reread = λ output s t p. p;
    asked = λ s t p. p;
    progressed = λ g s t p. p;
    observed = λ path bytes s t p. p;
  }

  pub Grows-quiet :
      {A : Type 0} (m : Copying T A)
      → ((es : List ManifestEntry) → Maintains (HasManifest es) m)
      → Grows m []
  Grows-quiet m k = Grows-still m (λ w. (k w.1.manifest).from w refl)

  pub Grows-check_cancelled : Grows (check_cancelled T) []
  Grows-check_cancelled =
      Grows-quiet (check_cancelled T)
        (λ es. Maintains-check_cancelled T (HasManifest es) (IsStable-HasManifest es))

  pub Grows-raise :
      {A : Type 0} (e : MigrationError) (entries : List ManifestEntry)
      → Grows (raise {A = A} e) entries
  Grows-raise e entries = record { holds = λ w a h. cc }

-- ===== src/Profiles/DirectorySize/Sum.antt =====
-- The size that `directory_size` gives.
use native.Mathlib.Nat.{add-zero, zero-add, add_assoc}
use win_profile.Base.{
  ℕ, ◌+◌, ◌≡◌, refl, Result, ok, err, and_then, Text, leb, if◌then◌else◌, arith, subst,
}
use win_profile.Profiles.DirectorySize.{
  Entry, unreadable, reparse_point, directory, unlistable, file, other, Listing, end, failed, entry,
  u64_max, saturating_add, join_path, add_child, directory_size, entries_size,
}

-- The bytes of the files that are reached without passing a reparse point.
mutual
  pub file_bytes : Entry → ℕ
  file_bytes (unreadable _) = 0
  file_bytes reparse_point = 0
  file_bytes (directory entries) = listing_bytes entries
  file_bytes (unlistable _) = 0
  file_bytes (file len) = len
  file_bytes other = 0

  pub listing_bytes : Listing → ℕ
  listing_bytes end = 0
  listing_bytes (failed _ rest) = listing_bytes rest
  listing_bytes (entry _ e rest) = file_bytes e + listing_bytes rest

-- The sum, held at the largest `u64`.
abbrev pub clamp : ℕ → ℕ
clamp n = if leb n u64_max then n else u64_max

-- `Agrees` of a result: the size is the clamped sum, if there is one.
abbrev Agrees : ℕ → Result Text ℕ → Type 0
Agrees n (ok size) = size ≡ clamp n
Agrees n (err _) = Unit {0}

saturating_add-clamp : (a b : ℕ) → saturating_add (clamp a) (clamp b) ≡ clamp (a + b)
unfolding saturating_add
saturating_add-clamp a b = ground arith

pub saturating_add-len : (a b : ℕ) → saturating_add (clamp a) b ≡ clamp (a + b)
unfolding saturating_add
saturating_add-len a b = ground arith

and_then-Agrees :
    (m n : ℕ) (r : Result Text ℕ) (k : ℕ → Result Text ℕ)
    → Agrees m r
    → ((t : ℕ) → t ≡ clamp m → Agrees n (k t))
    → Agrees n (and_then r k)
and_then-Agrees m n (ok t) k h next = next t h
and_then-Agrees m n (err x) k h next = tt

module _ (nd : Text) where
  add_child-Agrees :
      (p : Text) (size : Result Text ℕ) (e : Entry) (before total : ℕ)
      → total ≡ clamp before
      → Agrees (file_bytes e) size
      → Agrees (before + file_bytes e) (add_child p size e total)
  unfolding add_child file_bytes
  add_child-Agrees p size (unreadable x) before total h a = tt
  add_child-Agrees p size reparse_point before total h a = rw (h, add-zero)
  add_child-Agrees p (ok n) (directory es) before total h a =
      rw (h, a) (saturating_add-clamp before (listing_bytes es))
  add_child-Agrees p (err x) (directory es) before total h a = tt
  add_child-Agrees p (ok n) (unlistable x) before total h a =
      rw (h, a) (saturating_add-clamp before 0)
  add_child-Agrees p (err x) (unlistable y) before total h a = tt
  add_child-Agrees p size (file len) before total h a = rw h (saturating_add-len before len)
  add_child-Agrees p size other before total h a = tt

  mutual
    unfolding directory_size file_bytes

    directory_size-Agrees :
        (e : Entry) (root : Text) → Agrees (file_bytes e) (directory_size nd root e)
    directory_size-Agrees (unreadable x) root = tt
    directory_size-Agrees reparse_point root = tt
    directory_size-Agrees (directory es) root =
        rw zero-add at (entries_size-Agrees es root 0 0 refl)
    directory_size-Agrees (unlistable x) root = tt
    directory_size-Agrees (file len) root = tt
    directory_size-Agrees other root = tt

    entries_size-Agrees :
        (es : Listing) (root : Text) (before total : ℕ)
        → total ≡ clamp before
        → Agrees (before + listing_bytes es) (entries_size nd root es total)
    entries_size-Agrees end root before total h = rw (h, add-zero)
    entries_size-Agrees (failed x rest) root before total h = tt
    entries_size-Agrees (entry name e rest) root before total h =
        and_then-Agrees (before + file_bytes e) (before + (file_bytes e + listing_bytes rest))
          (add_child (join_path root name) _ e total) (entries_size nd root rest)
          (add_child-Agrees (join_path root name) _ e before total h (directory_size-Agrees e _))
          (λ t ht. rw (← add_assoc) (entries_size-Agrees rest root (before + file_bytes e) t ht))

  -- If the walk gives a size, this is the sum of the lengths of all files that are reached
  -- without passing a reparse point, held at the largest `u64`: a junction is never counted.
  pub directory_size_lem :
      (root : Text) (e : Entry) (size : ℕ)
      → directory_size nd root e ≡ ok size
      → size ≡ clamp (file_bytes e)
  directory_size_lem root e size h = subst (Agrees (file_bytes e)) h (directory_size-Agrees e root)

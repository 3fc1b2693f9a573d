-- ===== src/Migration/Transaction/Sizes.antt =====
-- The bytes that a migration's receipt and progress report.
use win_profile.Base.{ℕ, ◌+◌, ◌≤◌, ◌≡◌, ap, ◌∙◌, List, [], ◌∷◌, Text, arith}
use native.Mathlib.Nat.{add-zero, zero-add, add_assoc}
use win_profile.Profiles.DirectorySize.Sum.{clamp, saturating_add-len}
use win_profile.Migration.Transaction.{
  ManifestEntry, CopyTransaction, total_bytes, receipt, copied_bytes, maximum,
}

abbrev pub sizes : List ManifestEntry → ℕ
sizes [] = 0
sizes (e ∷ es) = e.size + sizes es

total_bytes-clamp :
    (es : List ManifestEntry) (n : ℕ) → total_bytes es (clamp n) ≡ clamp (n + sizes es)
unfolding total_bytes
total_bytes-clamp [] n = rw add-zero
total_bytes-clamp (e ∷ es) n =
    ap (total_bytes es) (saturating_add-len n e.size)
    ∙ (total_bytes-clamp es (n + e.size) ∙ ap clamp (add_assoc n e.size (sizes es)))

-- The receipt counts the bytes of the manifest's files, held at the largest `u64`, and the progress
-- never shows fewer.
pub receipt-sizes :
    {E : Type 0}
    → (utf8 : Text → List ℕ) (hash : List ℕ → Text) (t : CopyTransaction E)
    → ((receipt utf8 hash t).copied_bytes ≡ clamp (sizes t.manifest))
      × ((receipt utf8 hash t).copied_bytes ≤ copied_bytes t)
unfolding receipt copied_bytes maximum
receipt-sizes utf8 hash t =
    (total_bytes-clamp t.manifest 0 ∙ ap clamp (zero-add (sizes t.manifest)), ground arith)

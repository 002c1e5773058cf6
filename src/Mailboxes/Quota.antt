-- ===== src/Mailboxes/Quota.antt =====
-- The quota format of the page.
use Prim.Native.String.{String, [], ◌∷◌}
use mailserver_ui.Common.{Char, true, false, ◌≡◌, ◌↔◌, arith, Bool-cases, inl, inr}
use mailserver_ui.Mailboxes.State.{is_digit, is_unit, quota_from, is_quota}

-- One or more digits and then one unit letter, K, M, G or T.
pub data QuotaFormat : String → Type 0 where
  amount : (d u : Char) → is_digit d ≡ true → is_unit u ≡ true → QuotaFormat (d ∷ u ∷ [])
  digit : (d : Char) {s : String} → is_digit d ≡ true → QuotaFormat s → QuotaFormat (d ∷ s)

not-digit_of_unit : (c : Char) → is_unit c ≡ true → is_digit c ≡ false
not-digit_of_unit c h = ground arith

quota_from_weaken : (s : String) → quota_from false s ≡ true → quota_from true s ≡ true
unfolding quota_from
quota_from_weaken [] h = h
quota_from_weaken (c ∷ s) h = ground arith

quota_complete : {s : String} → QuotaFormat s → quota_from false s ≡ true
unfolding quota_from
quota_complete (amount d u p q) = ground (arith, not-digit_of_unit u q)
quota_complete (digit d {s} p h) = ground (arith, quota_from_weaken s (quota_complete h))

-- After a digit: a unit letter that ends the text, or a shorter quota.
quota_sound :
    (d : Char) (s : String) → is_digit d ≡ true → quota_from true s ≡ true → QuotaFormat (d ∷ s)
unfolding quota_from
quota_sound d [] p h = cc
quota_sound d (c ∷ []) p h = amount d c p (ground arith)
quota_sound d (c ∷ e ∷ s) p h = elim (Bool-cases (is_digit c)) [
  | inl more ↦ digit d p (quota_sound c (e ∷ s) more (ground arith))
  | inr done ↦ absurd (ground arith)
]

-- The test accepts exactly the quotas of the format: digits, then one unit letter, and no more.
pub is_quota_iff : (s : String) → (is_quota s ≡ true) ↔ QuotaFormat s
unfolding is_quota quota_from
is_quota_iff s = (sound s, quota_complete)
  where
    sound : (s : String) → quota_from false s ≡ true → QuotaFormat s
    sound [] h = cc
    sound (c ∷ s) h = quota_sound c s (ground arith) (ground arith)

-- ===== src/Walk/Sniff/Utf8.antt =====
-- What passes for text: UTF-8 up to a sequence that the end of the sample cuts off.
use chimera_ape.Base.{
  ℕ, zero, suc, ◌≤◌, ◌<◌, ◌≡◌, ◌≢◌, refl, sym, ◌∙◌, ◌↔◌, Bool, true, false, some, inl, inr, [], ◌∷◌,
  arith, Bool-cases, Option-cases, Bytes, length, drop, length-drop, All,
}
use chimera_ape.Walk.Sniff.{need, all_continue, is_cut, scan, has_nul, looks_binary}

-- A byte that opens a sequence with so many more bytes.
abbrev pub Lead : ℕ → ℕ → Type 0
Lead zero c = c < 0x80
Lead (suc zero) c = (0xc0 ≤ c) × (c < 0xe0)
Lead (suc (suc zero)) c = (0xe0 ≤ c) × (c < 0xf0)
Lead (suc (suc (suc zero))) c = (0xf0 ≤ c) × (c < 0xf8)
Lead (suc (suc (suc (suc k)))) c = ⊥

-- The first bytes, that many, are continuation bytes.
abbrev pub Continues : ℕ → Bytes → Type 0
Continues zero s = Unit
Continues (suc k) [] = ⊥
Continues (suc k) (c ∷ s) = ((0x80 ≤ c) × (c < 0xc0)) × Continues k s

pub data IsUtf8 : Bytes → Type 0 where
  end : IsUtf8 []
  cut : (k : ℕ) {c : ℕ} {s : Bytes} → Lead k c → length s < k → IsUtf8 (c ∷ s)
  char : (k : ℕ) {c : ℕ} {s : Bytes} → Lead k c → Continues k s → IsUtf8 (drop k s) → IsUtf8 (c ∷ s)

Lead-need : (k c : ℕ) → need c ≡ some k → Lead k c
unfolding need
Lead-need zero c e = ground arith
Lead-need (suc zero) c e = (ground arith, ground arith)
Lead-need (suc (suc zero)) c e = (ground arith, ground arith)
Lead-need (suc (suc (suc zero))) c e = (ground arith, ground arith)
Lead-need (suc (suc (suc (suc k)))) c e = ground arith

need-Lead : (k c : ℕ) → Lead k c → need c ≡ some k
unfolding need
need-Lead zero c h = ground arith
need-Lead (suc zero) c h = ground arith
need-Lead (suc (suc zero)) c h = ground arith
need-Lead (suc (suc (suc zero))) c h = ground arith
need-Lead (suc (suc (suc (suc k)))) c h = absurd h

all_continue_iff : (k : ℕ) (s : Bytes) → (all_continue k s ≡ true) ↔ Continues k s
unfolding all_continue
all_continue_iff zero s = (λ _. tt, λ _. refl)
all_continue_iff (suc k) [] = (λ e. ground arith, λ h. absurd h)
all_continue_iff (suc k) (c ∷ s) =
    let ih = all_continue_iff k s in
    (λ e. ((ground arith, ground arith), ih.0 (ground arith)), λ h. ground (arith, ih.1 h.1))

drop-le : (k : ℕ) (s : Bytes) → length (drop k s) ≤ length s
drop-le k s = omega (arith, length-drop k s)

clash : (b : Bool) → b ≡ true → b ≡ false → true ≡ false
clash b t e = sym t ∙ e

scan_sound : (f : ℕ) (d : Bytes) → length d ≤ f → scan f d ≡ false → IsUtf8 d
unfolding scan is_cut
scan_sound f [] le e = end
scan_sound zero (c ∷ s) le e = absurd (omega arith)
scan_sound (suc f) (c ∷ s) le e = elim (Option-cases (need c)) [
  | inl bad ↦ let loud : scan (suc f) (c ∷ s) ≡ true = rw (scan, bad) refl in absurd (ground arith)
  | inr (k, lead) ↦ elim (Bool-cases (is_cut k (c ∷ s))) [
    | inl short ↦ cut k (Lead-need k c lead) (ground arith)
    | inr full ↦ elim (Bool-cases (all_continue k s)) [
      | inl good ↦
          let onward : scan (suc f) (c ∷ s) ≡ scan f (drop k s) =
            rw (scan, lead, full, good) refl in
          char k (Lead-need k c lead) ((all_continue_iff k s).0 good)
            (scan_sound f (drop k s) (omega (arith, drop-le k s)) (sym onward ∙ e))
      | inr broken ↦
          let loud : scan (suc f) (c ∷ s) ≡ true = rw (scan, lead, full, broken) refl in
          absurd (ground arith)
    ]
  ]
]

scan_complete : (f : ℕ) (d : Bytes) → length d ≤ f → IsUtf8 d → scan f d ≡ false
unfolding scan is_cut
scan_complete f [] le u = refl
scan_complete zero (c ∷ s) le u = absurd (omega arith)
scan_complete (suc f) (c ∷ s) le (cut k lead short) =
    let ends : is_cut k (c ∷ s) ≡ true = ground arith in rw (scan, need-Lead k c lead, ends) refl
scan_complete (suc f) (c ∷ s) le (char k lead cont rest) = elim (Bool-cases (is_cut k (c ∷ s))) [
  | inl short ↦ rw (scan, need-Lead k c lead, short) refl
  | inr full ↦
      rw (scan, need-Lead k c lead, full, (all_continue_iff k s).1 cont)
        (scan_complete f (drop k s) (omega (arith, drop-le k s)) rest)
]

has_nul_iff : (d : Bytes) → (has_nul d ≡ false) ↔ All (λ c. c ≢ 0) d
unfolding has_nul
has_nul_iff [] = (λ _. tt, λ _. refl)
has_nul_iff (c ∷ s) =
    let ih = has_nul_iff s in
    (λ e. (ground arith, ih.0 (ground arith)), λ h. ground (arith, h.0, ih.1 h.1))

-- A sample passes for text exactly when it has no zero byte and is UTF-8, read by the lead bytes,
-- up to a sequence that the end of the sample cuts off.
pub looks_binary_iff : (d : Bytes) → (looks_binary d ≡ false) ↔ (All (λ c. c ≢ 0) d × IsUtf8 d)
unfolding looks_binary
looks_binary_iff d = elim (Bool-cases (has_nul d)) [
  | inl nul ↦ rw nul (λ e. absurd (cc e), λ h. clash (has_nul d) nul ((has_nul_iff d).1 h.0))
  | inr clean ↦ rw clean (
    λ e. ((has_nul_iff d).0 clean, scan_sound (length d) d (omega arith) e),
    λ h. scan_complete (length d) d (omega arith) h.1,
  )
]

-- ===== src/Guid/Zero.antt =====
-- `guid_is_zero` tells the all-zero GUID, which marks an unused GPT entry.
use native.Mathlib.Nat.{le_refl}
use partman.Base.{ℕ, bit_or, List, [], ◌∷◌, length, ◌≡◌, refl, ◌↔◌, true, arith}
use partman.Bits.Fields.{bit_or-eq-zero}
use partman.Guid.{Guid, Guid_ext, IsGuid, zero_guid, guid_is_zero, or_nodes}

abbrev pub AllZero : List ℕ → Type 0
AllZero [] = Unit
AllZero (x ∷ xs) = (x ≡ 0) × AllZero xs

or_zero : (a b : ℕ) → bit_or a b ≡ 0 → (a ≡ 0) × (b ≡ 0)
or_zero a b = bit_or-eq-zero a a b (le_refl a)

or_nodes-zero : (xs : List ℕ) (flag : ℕ) → or_nodes xs flag ≡ 0 → (flag ≡ 0) × AllZero xs
unfolding or_nodes
or_nodes-zero [] flag h = (h, tt)
or_nodes-zero (x ∷ xs) flag h =
    let (f, rest) = or_nodes-zero xs (bit_or flag x) h in
    let (f0, x0) = or_zero flag x f in (f0, (x0, rest))

AllZero-six : (xs : List ℕ) → length xs ≡ 6 → AllZero xs → xs ≡ zero_guid.nodes
AllZero-six [] e z = absurd (omega arith)
AllZero-six (a ∷ []) e z = absurd (omega arith)
AllZero-six (a ∷ b ∷ []) e z = absurd (omega arith)
AllZero-six (a ∷ b ∷ c ∷ []) e z = absurd (omega arith)
AllZero-six (a ∷ b ∷ c ∷ d ∷ []) e z = absurd (omega arith)
AllZero-six (a ∷ b ∷ c ∷ d ∷ f ∷ []) e z = absurd (omega arith)
AllZero-six (a ∷ b ∷ c ∷ d ∷ f ∷ g ∷ []) e z =
    cc (z.0, z.1.0, z.1.1.0, z.1.1.1.0, z.1.1.1.1.0, z.1.1.1.1.1.0)
AllZero-six (a ∷ b ∷ c ∷ d ∷ f ∷ g ∷ h ∷ xs) e z = absurd (omega arith)

-- A GUID in the range of its fields is reported as zero exactly when it is the zero GUID.
pub guid_is_zero_iff : (g : Guid) → IsGuid g → (guid_is_zero g ≡ true) ↔ (g ≡ zero_guid)
unfolding guid_is_zero
guid_is_zero_iff g v = (λ h. zeros (or_nodes-zero g.nodes _ (ground arith)), λ e. rw e refl)
  where
    zeros :
        (bit_or
              (bit_or (bit_or (bit_or g.time_lo g.time_mid) g.time_hi_ver) g.cl_seq_hi_res)
              g.cl_seq_lo
            ≡ 0)
          × AllZero g.nodes
        → g ≡ zero_guid
    zeros (f, n) =
        let (f, e) = or_zero _ g.cl_seq_lo f in
        let (f, d) = or_zero _ g.cl_seq_hi_res f in
        let (f, c) = or_zero _ g.time_hi_ver f in
        let (a, b) = or_zero _ g.time_mid f in
        Guid_ext a b c d e (AllZero-six g.nodes v.node_count n)

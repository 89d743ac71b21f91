-- ===== src/Guid/Disk.antt =====
-- A GUID on the disk: 16 bytes, without gaps.
use native.Mathlib.Nat.{add_assoc, mod-eq_of_lt}
use partman.Base.{ℕ, ◌+◌, List, [], ◌∷◌, ◌++◌, length, ◌≡◌, refl, ap, ap₂, ◌∙◌, sym, arith}
use partman.MemUtils.{Memory, IsBytes}
use partman.MemUtils.Bytes.{
  write_pu8-eq, write_pu16-eq, write_pu32-eq, read_pu8-eq, read_pu16-eq, read_pu32-eq,
}
use mathlib.Core.Path.{subst}
use mathlib.Core.List.{append-nil}
use partman.MemUtils.Region.{IsGapless, IsGapless-IsIncreasing, widths}
use partman.MemUtils.Layout.{
  Field, field, write_fields, Reads, write_fields-IsBytes, write_fields-Reads,
}
use partman.Guid.{
  Guid, Guid_ext, IsGuid, AllBytes, node_cnt, guid_read, guid_write, read_nodes, write_nodes,
}

abbrev pub node_fields : ℕ → List ℕ → List Field
node_fields o [] = []
node_fields o (x ∷ xs) = field o 1 x ∷ node_fields (o + 1) xs

-- The fields of a GUID that stands at offset `o` of a record.
abbrev pub guid_fields : ℕ → Guid → List Field
guid_fields o g =
    field o 4 g.time_lo
    ∷ field (o + 4) 2 g.time_mid
    ∷ field (o + 6) 2 g.time_hi_ver
    ∷ field (o + 8) 1 g.cl_seq_hi_res
    ∷ field (o + 9) 1 g.cl_seq_lo
    ∷ node_fields (o + 10) g.nodes

module _ (p : ℕ) where
  write_nodes-eq :
      (o : ℕ) (xs : List ℕ) (m : Memory)
      → write_nodes (p + o) xs m ≡ write_fields p (node_fields o xs) m
  unfolding write_nodes
  write_nodes-eq o [] m = refl
  write_nodes-eq o (x ∷ xs) m =
      rw (add_assoc p o 1, write_pu8-eq (p + o) x m) (write_nodes-eq (o + 1) xs _)

  pub guid_write-eq :
      (o : ℕ) (g : Guid) (m : Memory) → guid_write (p + o) g m ≡ write_fields p (guid_fields o g) m
  unfolding guid_write
  guid_write-eq o g m =
      simp (add_assoc, write_pu8-eq, write_pu16-eq, write_pu32-eq)
        (write_nodes-eq (o + 10) g.nodes _)

  read_nodes-eq :
      (o : ℕ) (xs : List ℕ) (m : Memory)
      → IsBytes m
      → AllBytes xs
      → Reads p (node_fields o xs) m
      → read_nodes (length xs) (p + o) m ≡ xs
  unfolding read_nodes
  read_nodes-eq o [] m b h r = refl
  read_nodes-eq o (x ∷ xs) m b h r =
      ap₂ ◌∷◌ (read_pu8-eq (p + o) m b ∙ r.0 ∙ mod-eq_of_lt h.0)
        (rw (add_assoc p o 1) (read_nodes-eq (o + 1) xs m b h.1 r.1))

  -- Where the fields of a GUID read as they should, `guid_read` returns it.
  pub guid_read-eq :
      (o : ℕ) (g : Guid) (m : Memory)
      → IsBytes m
      → IsGuid g
      → Reads p (guid_fields o g) m
      → guid_read (p + o) m ≡ g
  unfolding guid_read
  guid_read-eq o g m b v r =
      Guid_ext (read_pu32-eq (p + o) m b ∙ r.0 ∙ mod-eq_of_lt v.time_lo)
        (rw (add_assoc p o 4) (read_pu16-eq _ m b ∙ r.1.0 ∙ mod-eq_of_lt v.time_mid))
        (rw (add_assoc p o 6) (read_pu16-eq _ m b ∙ r.1.1.0 ∙ mod-eq_of_lt v.time_hi_ver))
        (rw (add_assoc p o 8) (read_pu8-eq _ m b ∙ r.1.1.1.0 ∙ mod-eq_of_lt v.cl_seq_hi_res))
        (rw (add_assoc p o 9) (read_pu8-eq _ m b ∙ r.1.1.1.1.0 ∙ mod-eq_of_lt v.cl_seq_lo))
        (ap (λ k. read_nodes k (p + o + 10) m) (sym v.node_count)
          ∙ ap (λ t. read_nodes (length g.nodes) t m) (add_assoc p o 10)
          ∙ read_nodes-eq (o + 10) g.nodes m b v.node_bytes r.1.1.1.1.1)

IsGapless-node_fields :
    (o : ℕ) (xs : List ℕ) (rest : List Field)
    → IsGapless (o + length xs) rest
    → IsGapless o (node_fields o xs ++ rest)
IsGapless-node_fields o [] rest h = ground arith
IsGapless-node_fields o (x ∷ xs) rest h =
    (refl, IsGapless-node_fields (o + 1) xs rest (subst (λ t. IsGapless t rest) (omega arith) h))

-- A GUID takes up 16 bytes, with no gap, and more fields may follow.
pub IsGapless-guid_fields :
    (o : ℕ) (g : Guid) (rest : List Field)
    → length g.nodes ≡ node_cnt
    → IsGapless (o + 16) rest
    → IsGapless o (guid_fields o g ++ rest)
IsGapless-guid_fields o g rest e h = (
  refl,
  (
    refl,
    (
      omega arith,
      (
        omega arith,
        (
          omega arith,
          subst (λ t. IsGapless t (node_fields (o + 10) g.nodes ++ rest)) (omega arith)
              (IsGapless-node_fields (o + 10) g.nodes rest
                (subst (λ t. IsGapless t rest) (omega arith) h)),
        ),
      ),
    ),
  ),
)

widths-node_fields :
    (o : ℕ) (xs : List ℕ) (rest : List Field)
    → widths (node_fields o xs ++ rest) ≡ length xs + widths rest
widths-node_fields o [] rest = omega arith
widths-node_fields o (x ∷ xs) rest = omega (arith, widths-node_fields (o + 1) xs rest)

pub widths-guid_fields :
    (o : ℕ) (g : Guid) (rest : List Field)
    → length g.nodes ≡ node_cnt
    → widths (guid_fields o g ++ rest) ≡ 16 + widths rest
widths-guid_fields o g rest e = omega (arith, widths-node_fields (o + 10) g.nodes rest)

-- A GUID with fields in range, written to a memory of bytes, is read back unchanged.
pub guid_read-guid_write :
    (p : ℕ) (g : Guid) (m : Memory) → IsBytes m → IsGuid g → guid_read p (guid_write p g m) ≡ g
guid_read-guid_write p g m b v =
    subst (λ t. guid_read t (guid_write t g m) ≡ g) (omega arith) at_zero
  where
    m' : Memory
    m' = write_fields p (guid_fields 0 g) m

    gapless : IsGapless 0 (guid_fields 0 g ++ [])
    gapless = IsGapless-guid_fields 0 g [] v.node_count tt

    at_zero : guid_read (p + 0) (guid_write (p + 0) g m) ≡ g
    at_zero = rw (guid_write-eq p 0 g m) (
        guid_read-eq p 0 g m' (write_fields-IsBytes p (guid_fields 0 g) m b) v (
          write_fields-Reads p (guid_fields 0 g) 0 m (
            IsGapless-IsIncreasing (guid_fields 0 g) 0
              (subst (IsGapless 0) (append-nil (guid_fields 0 g)) gapless))))

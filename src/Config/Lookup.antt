-- ===== src/Config/Lookup.antt =====
-- What the changes of the controller list in src/vds_config.cc do to a lookup by address.
use windows_vds.Prelude.{
  ◌≡◌, refl, List, [], ◌∷◌, ◌++◌, arith, Bytes, Bool-cases, ◌∙◌, bytes_eq, bytes_eq_iff, none, some,
  if◌then◌else◌, inl, inr, bytes_eq_comm,
}
use windows_vds.Config.Records.{ControllerConfig, find_address}
use windows_vds.Config.Db.{replace_or_append, erase_address}

-- No two controllers have one address.
abbrev pub IsDistinct : List ControllerConfig → Type 0
IsDistinct [] = Unit
IsDistinct (c ∷ cs) = (find_address cs c.address ≡ none) × IsDistinct cs

pub find_address-append :
    (cs : List ControllerConfig) (c : ControllerConfig) (a : Bytes)
    → find_address cs a ≡ none
    → find_address (cs ++ c ∷ []) a ≡ (if bytes_eq c.address a then some c else none)
unfolding find_address
find_address-append [] c a h = refl
find_address-append (d ∷ cs) c a h = ground (arith, find_address-append cs c a)

pub find_address-replace_or_append :
    (cs : List ControllerConfig) (c : ControllerConfig) (a : Bytes)
    → find_address (replace_or_append cs c) a
      ≡ (if bytes_eq c.address a then some c else find_address cs a)
unfolding find_address replace_or_append
find_address-replace_or_append [] c a = refl
find_address-replace_or_append (d ∷ cs) c a = ground (
  arith,
  bytes_eq_iff d.address c.address,
  bytes_eq_iff c.address a,
  bytes_eq_iff d.address a,
  find_address-replace_or_append cs c a,
)

pub replace_or_append-IsDistinct :
    (cs : List ControllerConfig) (c : ControllerConfig)
    → IsDistinct cs
    → IsDistinct (replace_or_append cs c)
unfolding replace_or_append
replace_or_append-IsDistinct [] c h = (unfold find_address in refl, tt)
replace_or_append-IsDistinct (d ∷ cs) c h = elim (Bool-cases (bytes_eq d.address c.address)) [
  | inl same ↦ rw same (rw (← (bytes_eq_iff d.address c.address).0 same) h.0, h.1)
  | inr other ↦ rw other (
    find_address-replace_or_append cs c d.address
        ∙ rw (bytes_eq_comm c.address d.address, other) h.0,
    replace_or_append-IsDistinct cs c h.1,
  )
]

pub find_address-erase_address :
    (cs : List ControllerConfig) (b a : Bytes)
    → find_address (erase_address cs b) a ≡ (if bytes_eq b a then none else find_address cs a)
unfolding find_address erase_address
find_address-erase_address [] b a = ground arith
find_address-erase_address (d ∷ cs) b a = ground (
  arith,
  bytes_eq_iff d.address b,
  bytes_eq_iff b a,
  bytes_eq_iff d.address a,
  find_address-erase_address cs b a,
)

pub erase_address-IsDistinct :
    (cs : List ControllerConfig) (b : Bytes) → IsDistinct cs → IsDistinct (erase_address cs b)
unfolding erase_address
erase_address-IsDistinct [] b h = tt
erase_address-IsDistinct (d ∷ cs) b h = elim (Bool-cases (bytes_eq d.address b)) [
  | inl same ↦ rw same (erase_address-IsDistinct cs b h.1)
  | inr other ↦ rw other (
    find_address-erase_address cs b d.address ∙ rw (bytes_eq_comm b d.address, other) h.0,
    erase_address-IsDistinct cs b h.1,
  )
]

-- Distinct addresses: an element is what a lookup of its address finds.
pub erase_address-absent :
    (cs : List ControllerConfig) (b : Bytes) → find_address cs b ≡ none → erase_address cs b ≡ cs
unfolding erase_address find_address
erase_address-absent [] b h = refl
erase_address-absent (d ∷ cs) b h = ground (arith, erase_address-absent cs b)

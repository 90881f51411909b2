-- ===== src/Dma.antt =====
-- The programming of the DMA controller: MimicOS/src/kernel/mm/dma.c with
-- MimicOS/include/kernel/mm/dma.h. A call gives the list of what it does to the hardware, in order:
-- bytes written to ports, and interrupts switched off and on, both outside the repository. A channel
-- for which the tables of ports have no entry is the result `none`.
pub mod Registers
mod Tests
use system_related_projects.Base.{
  ℕ, ◌+◌, ◌-◌, ◌*◌, ◌/◌, ◌%◌, ◌^◌, Option, none, some, List, [], ◌∷◌, ◌++◌, get_elem?, bit_or,
}

pub data Event : Type 0 where
  outb : ℕ → ℕ → Event
  disable_all enable_all : Event

abbrev pub dma_maskreg : List ℕ
dma_maskreg = 0x0a ∷ 0x0a ∷ 0x0a ∷ 0x0a ∷ 0xd4 ∷ 0xd4 ∷ 0xd4 ∷ 0xd4 ∷ []

abbrev pub dma_modereg : List ℕ
dma_modereg = 0x0b ∷ 0x0b ∷ 0x0b ∷ 0x0b ∷ 0xd6 ∷ 0xd6 ∷ 0xd6 ∷ 0xd6 ∷ []

abbrev pub dma_clearreg : List ℕ
dma_clearreg = 0x0c ∷ 0x0c ∷ 0x0c ∷ 0x0c ∷ 0xd8 ∷ 0xd8 ∷ 0xd8 ∷ 0xd8 ∷ []

abbrev pub dma_pageport : List ℕ
dma_pageport = 0x87 ∷ 0x83 ∷ 0x81 ∷ 0x82 ∷ 0x8f ∷ 0x8b ∷ 0x89 ∷ 0x8a ∷ []

abbrev pub dma_addressport : List ℕ
dma_addressport = 0x00 ∷ 0x02 ∷ 0x04 ∷ 0x06 ∷ 0xc0 ∷ 0xc4 ∷ 0xc8 ∷ 0xcc ∷ []

abbrev pub dma_countport : List ℕ
dma_countport = 0x01 ∷ 0x03 ∷ 0x05 ∷ 0x07 ∷ 0xc2 ∷ 0xc6 ∷ 0xca ∷ 0xce ∷ []

abbrev pub dma_single : ℕ
dma_single = 1

abbrev pub dma_verify : ℕ
dma_verify = 0

abbrev pub dma_read_type : ℕ
dma_read_type = 2

-- struct MODE as a byte: the channel in two bits, the type of the transfer, the mode in the top bits.
abbrev pub mode_data : ℕ → ℕ → ℕ → ℕ
mode_data channel type select = channel % 4 + 4 * (type % 4) + 64 * (select % 4)

abbrev pub and_then {ℓ} : {A B : Type ℓ} → Option A → (A → Option B) → Option B
and_then none k = none
and_then (some a) k = k a

unfoldable pub dma_transfer : ℕ → ℕ → ℕ → ℕ → Option (List Event)
dma_transfer channel address length mode = and_then (get_elem? dma_maskreg channel) λ mask.
    and_then (get_elem? dma_clearreg channel) λ clear.
      and_then (get_elem? dma_modereg channel) λ mode_port.
        and_then (get_elem? dma_addressport channel) λ address_port.
          and_then (get_elem? dma_pageport channel) λ page_port.
            and_then (get_elem? dma_countport channel) λ count_port.
              let page = address / 2 ^ 16 % 2 ^ 8 in
              let offset = address % 2 ^ 16 in
              let count = (length + 2 ^ 32 - 1) % 2 ^ 32 in
              some (
                outb mask (bit_or 4 channel)
                ∷ outb clear 0
                ∷ outb mode_port mode
                ∷ outb address_port (offset % 2 ^ 8)
                ∷ outb address_port (offset / 2 ^ 8)
                ∷ outb page_port page
                ∷ outb count_port (count % 2 ^ 8)
                ∷ outb count_port (count / 2 ^ 8 % 2 ^ 8)
                ∷ outb mask channel
                ∷ [])

unfoldable pub dma_read : ℕ → ℕ → ℕ → Option (List Event)
dma_read channel address length =
    and_then (dma_transfer channel address length (mode_data channel dma_read_type dma_single))
      λ events. some (disable_all ∷ events ++ enable_all ∷ [])

-- The type of the transfer is not set, so it is that of a verification.
unfoldable pub dma_write : ℕ → ℕ → ℕ → Option (List Event)
dma_write channel address length =
    and_then (dma_transfer channel address length (mode_data channel 0 dma_single))
      λ events. some (disable_all ∷ events ++ enable_all ∷ [])

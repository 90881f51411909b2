-- ===== src/Dma/Registers.antt =====
-- What the ports of a channel receive from dma_read and dma_write.
use system_related_projects.Base.{
  ℕ, zero, suc, ◌+◌, ◌-◌, ◌*◌, ◌/◌, ◌%◌, ◌^◌, ◌≤◌, ◌<◌, ◌≡◌, refl, some, List, [], ◌∷◌, ◌++◌, ◌==◌,
  get_or, ltb, Bool-cases, inl, inr, ap, ◌∙◌, if◌then◌else◌, arith, bit_or,
}
use system_related_projects.Dma.{
  Event, outb, disable_all, enable_all, dma_maskreg, dma_modereg, dma_pageport, dma_addressport,
  dma_countport, dma_transfer, dma_read, dma_write, mode_data, dma_read_type, dma_verify,
  dma_single,
}

-- The bytes that a port receives, in order.
unfoldable pub received : ℕ → List Event → List ℕ
received port [] = []
received port (outb p v ∷ es) = if p == port then v ∷ received port es else received port es
received port (disable_all ∷ es) = received port es
received port (enable_all ∷ es) = received port es

-- The numbers `address` and `length` and the byte `mode` as the ports of the channel have received
-- them: the address in two bytes and a page, one less than the length in two bytes, the mode, and first
-- and last the two bytes of the mask register, of which bit 2 masks the channel.
pub record Sent (channel address length mode : ℕ) (events : List Event) : Type 0 where
  pub lo : ℕ
  pub hi : ℕ
  pub page : ℕ
  pub count_lo : ℕ
  pub count_hi : ℕ
  pub masked : ℕ
  pub unmasked : ℕ
  pub addresses : received (get_or dma_addressport channel 0) events ≡ lo ∷ hi ∷ []
  pub page_number : received (get_or dma_pageport channel 0) events ≡ page ∷ []
  pub counts : received (get_or dma_countport channel 0) events ≡ count_lo ∷ count_hi ∷ []
  pub modes : received (get_or dma_modereg channel 0) events ≡ mode ∷ []
  pub masks : received (get_or dma_maskreg channel 0) events ≡ masked ∷ unmasked ∷ []
  pub lo_byte : lo < 256
  pub hi_byte : hi < 256
  pub address_is : lo + 256 * hi + 65536 * page ≡ address
  pub length_is : count_lo + 256 * count_hi + 1 ≡ length
  pub set_first : masked / 4 % 2 ≡ 1
  pub set_last : unmasked / 4 % 2 ≡ (if ltb channel 4 then 0 else 1)

abbrev pub count_of : ℕ → ℕ
count_of length = (length + 2 ^ 32 - 1) % 2 ^ 32

module _ (address length mode : ℕ) (ha : address < 2 ^ 24) (low : 1 ≤ length)
    (high : length ≤ 2 ^ 16) where
  programmed :
      (channel : ℕ) (events : List Event)
      → received (get_or dma_addressport channel 0) events
        ≡ address % 2 ^ 16 % 2 ^ 8 ∷ address % 2 ^ 16 / 2 ^ 8 ∷ []
      → received (get_or dma_pageport channel 0) events ≡ address / 2 ^ 16 % 2 ^ 8 ∷ []
      → received (get_or dma_countport channel 0) events
        ≡ count_of length % 2 ^ 8 ∷ count_of length / 2 ^ 8 % 2 ^ 8 ∷ []
      → received (get_or dma_modereg channel 0) events ≡ mode ∷ []
      → received (get_or dma_maskreg channel 0) events ≡ bit_or 4 channel ∷ channel ∷ []
      → bit_or 4 channel / 4 % 2 ≡ 1
      → channel / 4 % 2 ≡ (if ltb channel 4 then 0 else 1)
      → Sent channel address length mode events
  programmed channel events a p c m k set_first set_last = record {
    lo = _;
    hi = _;
    page = _;
    count_lo = _;
    count_hi = _;
    masked = _;
    unmasked = _;
    addresses = a;
    page_number = p;
    counts = c;
    modes = m;
    masks = k;
    lo_byte = omega arith;
    hi_byte = omega arith;
    address_is = omega arith;
    length_is = omega arith;
    set_first = set_first;
    set_last = set_last;
  }

  -- The numbers arrive at the ports, and the last byte unmasks the channels below 4 only.
  pub dma_transfer-Sent :
      (channel : ℕ)
      → channel < 8
      → (events : List Event) × (dma_transfer channel address length mode ≡ some events)
        × Sent channel address length mode events
  unfolding dma_transfer received
  dma_transfer-Sent zero h = (_, refl, programmed 0 _ refl refl refl refl refl refl refl)
  dma_transfer-Sent (suc zero) h = (_, refl, programmed 1 _ refl refl refl refl refl refl refl)
  dma_transfer-Sent (suc (suc zero)) h =
      (_, refl, programmed 2 _ refl refl refl refl refl refl refl)
  dma_transfer-Sent (suc (suc (suc zero))) h =
      (_, refl, programmed 3 _ refl refl refl refl refl refl refl)
  dma_transfer-Sent (suc (suc (suc (suc zero)))) h =
      (_, refl, programmed 4 _ refl refl refl refl refl refl refl)
  dma_transfer-Sent (suc (suc (suc (suc (suc zero))))) h =
      (_, refl, programmed 5 _ refl refl refl refl refl refl refl)
  dma_transfer-Sent (suc (suc (suc (suc (suc (suc zero)))))) h =
      (_, refl, programmed 6 _ refl refl refl refl refl refl refl)
  dma_transfer-Sent (suc (suc (suc (suc (suc (suc (suc zero))))))) h =
      (_, refl, programmed 7 _ refl refl refl refl refl refl refl)
  dma_transfer-Sent (suc (suc (suc (suc (suc (suc (suc (suc n)))))))) h = absurd (omega arith)

-- The controller moves bytes on the channels below 4 and words of two bytes on the others.
abbrev pub unit_of : ℕ → ℕ
unit_of channel = if ltb channel 4 then 1 else 2

-- What the controller does by the contents of its registers: it moves `bytes` bytes from the byte
-- address `start` on, with the mode `mode`. The address registers count units. Of the page the channels
-- that move words drop the lowest bit, and no transfer goes past the 64K, or 128K, of its page.
pub record Programmed (channel start bytes mode : ℕ) (events : List Event) : Type 0 where
  pub address : ℕ
  pub length : ℕ
  pub sent : Sent channel address length mode events
  pub start_is :
      unit_of channel * (sent.lo + 256 * sent.hi)
        + 65536 * (unit_of channel * (sent.page / unit_of channel))
      ≡ start
  pub bytes_is : unit_of channel * (sent.count_lo + 256 * sent.count_hi + 1) ≡ bytes
  pub in_page : unit_of channel * (sent.lo + 256 * sent.hi) + bytes ≤ 65536 * unit_of channel

received-append :
    (port : ℕ) (xs ys : List Event)
    → received port (xs ++ ys) ≡ received port xs ++ received port ys
unfolding received
received-append port [] ys = refl
received-append port (outb p v ∷ xs) ys = elim (Bool-cases (p == port)) [
  | inl t ↦ rw (t, received-append port xs ys)
  | inr t ↦ rw (t, received-append port xs ys)
]
received-append port (disable_all ∷ xs) ys = received-append port xs ys
received-append port (enable_all ∷ xs) ys = received-append port xs ys

wrapped :
    (port : ℕ) (events : List Event) {bytes : List ℕ}
    → received port events ≡ bytes
    → received port (disable_all ∷ events ++ enable_all ∷ []) ≡ bytes ++ []
unfolding received
wrapped port events e = received-append port events (enable_all ∷ []) ∙ ap (λ l. l ++ []) e

-- For each of the eight channels, an address below 2 ^ 24 and a length from 1 to 2 ^ 16: both
-- `dma_read` and `dma_write` succeed and send one mode byte to the channel. The type of the transfer in
-- it is DMA_READ for `dma_read`, and DMA_VERIFY, not DMA_WRITE, for `dma_write`.
pub dma_read-dma_write :
    (channel address length : ℕ)
    → channel < 8
    → address < 2 ^ 24
    → 1 ≤ length
    → length ≤ 2 ^ 16
    → (es : List Event) × (fs : List Event) × (m : ℕ) × (n : ℕ) × (dma_read channel address length
        ≡ some es)
      × (dma_write channel address length ≡ some fs)
      × (received (get_or dma_modereg channel 0) es ≡ m ∷ [])
      × (received (get_or dma_modereg channel 0) fs ≡ n ∷ [])
      × (m / 4 % 4 ≡ dma_read_type)
      × (n / 4 % 4 ≡ dma_verify)
unfolding dma_read dma_write
dma_read-dma_write channel address length h ha low high =
    let m = mode_data channel dma_read_type dma_single in
    let n = mode_data channel dma_verify dma_single in
    let (es, e, r) = dma_transfer-Sent address length m ha low high channel h in
    let (fs, f, w) = dma_transfer-Sent address length n ha low high channel h in
    (
      disable_all ∷ es ++ enable_all ∷ [],
      disable_all ∷ fs ++ enable_all ∷ [],
      m,
      n,
      rw e,
      rw f,
      wrapped _ es r.modes,
      wrapped _ fs w.modes,
      omega arith,
      omega arith,
    )

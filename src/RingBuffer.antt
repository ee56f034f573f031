-- ===== src/RingBuffer.antt =====
-- utils/ring-buffer.h: `RingBuffer<T, SIZE>`. The heads are pointers into `m_buffer`: `none` is nullptr, which
-- the constructor stores, and `some i` is `&m_buffer[i]`. A result `none` of an operation is undefined
-- behaviour or a thrown exception: a write through nullptr, or `new T[diff]` at a negative size.
pub mod Queue
mod Tests
use recd.Common.{
  ℕ, zero, suc, ◌+◌, ◌-◌, ◌≡◌, ◌<◌, Bool, true, false, Option, none, some, List, [], ◌∷◌, ◌++◌,
  length, get_elem?, set, replicate, ltb, ◌==◌, if◌then◌else◌, ◌>>=◌,
}
use mathlib.Core.Option

pub record RingBuffer {ℓ} (T : Type ℓ) : Type ℓ where
  pub r_head : Option ℕ
  pub w_head : Option ℕ
  pub m_buffer : List T

-- The comparison `rHead == wHead` of two pointers.
abbrev pub same_head : Option ℕ → Option ℕ → Bool
same_head none none = true
same_head none (some w) = false
same_head (some r) none = false
same_head (some r) (some w) = r == w

module _ {ℓ} {T : Type ℓ} where
  -- The constructor; the storage holds what it held.
  pub construct : List T → RingBuffer T
  construct storage = record { r_head = none; w_head = none; m_buffer = storage }

  pub init : RingBuffer T → RingBuffer T
  init b = record b { r_head = some 0; w_head = some 0 }

  -- `memset(&m_buffer, 0, sizeof(m_buffer))`, for the value `nil` whose bytes are 0.
  pub clear : T → RingBuffer T → RingBuffer T
  clear nil b = record b { m_buffer = replicate (length b.m_buffer) nil }

module _ (SIZE : ℕ) where
  -- `if (head == end()) head = &m_buffer[0]; else head++;` with `end()` at `&m_buffer[SIZE-1]`.
  pub advance : ℕ → ℕ
  advance head = if head == SIZE - 1 then 0 else head + 1

  pub get_size : ℕ
  get_size = SIZE - 1 - 0

  module _ {ℓ} {T : Type ℓ} where
    pub write : RingBuffer T → T → Option (RingBuffer T)
    write b t = elim b.w_head [
      | none ↦ none
      | some w ↦ some (record b { m_buffer = set b.m_buffer w t; w_head = some (advance w) })
    ]

    -- The pointer returned, as the value that it points to; `none` is nullptr.
    pub read : RingBuffer T → Option T × RingBuffer T
    read b =
        if same_head b.r_head b.w_head
        then (none, b)
        else (b.r_head >>= get_elem? b.m_buffer, record b { r_head = Option.map advance b.r_head })

    -- `for (int i = 0; i < diff; ++i) d[i] = *read();`; `none` where `read` returns nullptr.
    pub read_times : ℕ → RingBuffer T → Option (List T × RingBuffer T)
    read_times zero b = some ([], b)
    read_times (suc n) b =
        let (item, b') = read b in
        elim item [
          | none ↦ none
          | some t ↦ Option.map (λ (p : List T × RingBuffer T). (t ∷ p.0, p.1)) (read_times n b')
        ]

    -- The items that `*ret` points to (none for nullptr); their number is the result.
    pub read_all : RingBuffer T → Option (List T × RingBuffer T)
    read_all b = elim b.r_head [
      | none ↦ some ([], b)
      | some r ↦ elim b.w_head [
        | none ↦ none
        | some w ↦ if w == r then some ([], b) else if ltb w r then none else read_times (w - r) b
      ]
    ]

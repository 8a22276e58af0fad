-- ===== src/Plain/Delegated.antt =====
-- src/plain_http.rs: which connections reach the HTTP parser.
use roused.Base.{
  ℕ, ◌+◌, ◌≤◌, ◌<◌, ◌≡◌, refl, inl, inr, Bool, true, false, All, some, List, [], ◌∷◌, ◌++◌, leb,
  arith, Bool-cases,
}
use roused.Plain.{
  Peek, pending, peeked, Poll, is_pending, dropped, ConnectionEnd, after_peek, select, process_new,
  tls_prefix_timeout,
}

-- The poll finds nothing, and the wait goes on.
abbrev pub Waits : ℕ → Poll → Type 0
Waits deadline p = (p.changed ≡ false) × (p.peek ≡ pending) × (p.now < deadline)

-- There are first bytes, three or the fewer that the stream has, and they do not begin a TLS record of a
-- handshake: 0x16 and then 0x03.
abbrev pub IsPlain : Peek → Type 0
IsPlain peek =
    (filled : Bool) × (b0 : ℕ) × (b1 : ℕ) × (b2 : ℕ) × (peek ≡ peeked filled b0 b1 b2)
    × (¬ ((filled ≡ true) × (b0 ≡ 0x16) × (b1 ≡ 0x03)))

-- The polls wait until one finds the shutdown unchanged and such bytes.
abbrev pub Speaks : ℕ → List Poll → Type 0
Speaks deadline polls =
    (before : List Poll) × (p : Poll) × (after : List Poll) × (polls ≡ before ++ p ∷ after)
    × All (Waits deadline) before
    × (p.changed ≡ false)
    × IsPlain p.peek

select_ends :
    (deadline : ℕ) (before after : List Poll) (p : Poll)
    → deadline ≤ p.now
    → (end : ConnectionEnd) × (select deadline (before ++ p ∷ after) ≡ some end)
unfolding select
select_ends deadline [] after p h = elim (Bool-cases p.changed) [
  | inl c ↦ (dropped, ground arith)
  | inr c ↦ elim (Bool-cases (is_pending p.peek)) [
    | inl w ↦ (dropped, ground arith)
    | inr w ↦ (after_peek p.peek, ground arith)
  ]
]
select_ends deadline (q ∷ before) after p h =
    let (end, e) = select_ends deadline before after p h in
    elim (Bool-cases q.changed) [
      | inl c ↦ (dropped, ground arith)
      | inr c ↦ elim (Bool-cases (is_pending q.peek)) [
        | inr w ↦ (after_peek q.peek, ground arith)
        | inl w ↦ elim (Bool-cases (leb deadline q.now)) [
          | inl late ↦ (dropped, ground arith)
          | inr early ↦ (end, ground arith)
        ]
      ]
    ]

-- The wait of a connection ends, whatever comes: once the 60 seconds are over, the next poll is the last
-- if none was before.
pub process_new_ends :
    (now : ℕ) (shutting_down : Bool) (before after : List Poll) (p : Poll)
    → now + tls_prefix_timeout ≤ p.now
    → (end : ConnectionEnd) × (process_new now shutting_down (before ++ p ∷ after) ≡ some end)
unfolding process_new
process_new_ends now true before after p h = (dropped, refl)
process_new_ends now false before after p h =
    select_ends (now + tls_prefix_timeout) before after p h

-- ===== src/Client/Requested.antt =====
-- `HandleRequestMessage` of src/client/client.cpp: who gets a chunk, and which.
pub mod Replies
use tvpp_dev_base.Base.{
  ℕ, ◌+◌, ◌%◌, ◌^◌, ◌≡◌, refl, ap, ◌∙◌, ◌⊎◌, inl, inr, Bool, true, false, ◌&&◌, some, List, [], ◌∷◌,
  arith, Option-cases, Bool-cases,
}
use tvpp_dev_base.ChunkUniqueId.{ChunkUniqueId}
use tvpp_dev_base.MediaBuffer.{MediaBuffer, Slot, slot_at, is_available, get_media}
use tvpp_dev_base.MediaBuffer.Slots.{slot_at-bound}
use tvpp_dev_base.Client.{
  Client, Outbox, sealed_error, is_out_partner, is_within_cycle, get_chunk_size, reply_chunk,
  handle_request,
}

-- The buffer has the chunk's message, and offers it.
abbrev pub Holds : MediaBuffer → ℕ → List ℕ → Type 0
Holds b i m = (s : Slot) × (slot_at b.slots i ≡ some s) × (s.buffer ≡ some m) × (s.available ≡ true)

-- The chunk is not ahead of what was received, and at most one cycle behind it.
abbrev pub IsRecent : Client → ChunkUniqueId → Type 0
IsRecent c chunk = is_within_cycle c.latest_received_position chunk ≡ true

-- What a message to the source of a request is.
abbrev pub IsAnswer : List ℕ → Client → ℕ → ChunkUniqueId → List ℕ → Type 0
IsAnswer fresh c source chunk m =
    ((is_out_partner c.peer_manager source ≡ false) × (m ≡ sealed_error fresh 6))
    ⊎ ((is_out_partner c.peer_manager source ≡ true)
        × (((m ≡ sealed_error fresh 4)
              × ((m' : List ℕ)
                  → Holds c.media_buffer chunk.position m'
                  → is_within_cycle c.latest_received_position chunk ≡ false))
            ⊎ (Holds c.media_buffer chunk.position m × IsRecent c chunk)))

available-Holds :
    (b : MediaBuffer) (i : ℕ)
    → is_available b i ≡ some true
    → (m : List ℕ) × Holds b i m × (get_media b i ≡ some (some m))
unfolding is_available get_media
available-Holds b i e = elim (Option-cases (slot_at b.slots i)) [
  | inl f ↦ absurd (ground (arith, rw (is_available, f) at e))
  | inr (s, f) ↦ elim (Option-cases s.buffer) [
    | inl g ↦ absurd (ground (arith, rw (is_available, f, g) at e))
    | inr (m, g) ↦
        let offered : s.available ≡ true = ground (arith, rw (is_available, f, g) at e) in
        let inside = slot_at-bound b.slots i s f in
        (m, (s, f, g, offered), ground (arith, f, g, inside))
  ]
]

Holds-available :
    (b : MediaBuffer) (i : ℕ) (m : List ℕ)
    → Holds b i m
    → (is_available b i ≡ some true) × (get_media b i ≡ some (some m))
unfolding is_available get_media
Holds-available b i m (s, f, g, h) =
    let inside = slot_at-bound b.slots i s f in
    (ground (arith, f, g, h), ground (arith, f, g, inside))

-- The size of a chunk that is held.
size_of-Holds :
    (b : MediaBuffer) (i : ℕ) (m : List ℕ) → Holds b i m → (n : ℕ) × (get_chunk_size b i ≡ some n)
unfolding get_chunk_size
size_of-Holds b i m (s, f, g, h) = (s.chunk_size, ground (arith, f))

-- A partner of an out list that asks for a recent chunk that the buffer holds gets the message of the
-- buffer as it is.
pub handle_request-Holds :
    (fresh : List ℕ) (c : Client) (source : ℕ) (chunk : ChunkUniqueId) (m : List ℕ)
    → is_out_partner c.peer_manager source ≡ true
    → Holds c.media_buffer chunk.position m
    → IsRecent c chunk
    → (c' : Client) × (handle_request fresh c source chunk ≡ some (c', (source, m) ∷ []))
      × (c'.media_buffer ≡ c.media_buffer)
      × (c'.peer_manager ≡ c.peer_manager)
unfolding handle_request reply_chunk
handle_request-Holds fresh c source chunk m p h r =
    let size = size_of-Holds c.media_buffer chunk.position m h in
    let held = Holds-available c.media_buffer chunk.position m h in
    (
      record c {
        requests_recv = c.requests_recv + 1;
        upload_per_sec_done = (c.upload_per_sec_done + size.0) % 2 ^ 32;
      },
      ground (arith, p, r, held.0, held.1, size.1),
      refl,
      refl,
    )

-- The client and the messages after a handled request.
abbrev pub Answered : List ℕ → Client → ℕ → ChunkUniqueId → Client × Outbox → Type 0
Answered fresh c source chunk (c', sent) =
    ((m : List ℕ) × (sent ≡ (source, m) ∷ []) × IsAnswer fresh c source chunk m)
    × (c'.media_buffer ≡ c.media_buffer)
    × (c'.peer_manager ≡ c.peer_manager)

-- A handled request gets exactly one message, sent to its source: an error to a peer that is in no out
-- list; to a partner an error, or the message of a recent chunk that the buffer holds and offers. The
-- media buffer and the peers are as they were.
pub handle_request_answers :
    (fresh : List ℕ) (c : Client) (source : ℕ) (chunk : ChunkUniqueId) (o : Client × Outbox)
    → handle_request fresh c source chunk ≡ some o
    → Answered fresh c source chunk o
unfolding handle_request reply_chunk
handle_request_answers fresh c source chunk o e =
    let counted = record c { requests_recv = c.requests_recv + 1 } in
    let b = c.media_buffer in
    let i = chunk.position in
    elim (Bool-cases (is_out_partner c.peer_manager source)) [
      | inr p ↦
          let same : o ≡ (counted, (source, sealed_error fresh 6) ∷ []) =
            ground (arith, rw (handle_request, p) at e) in
          rw same ((sealed_error fresh 6, refl, inl (p, refl)), refl, refl)
      | inl p ↦ elim (Option-cases (is_available b i)) [
        | inl f ↦ absurd (ground (arith, rw (handle_request, p, reply_chunk, f) at e))
        | inr (available, f) ↦
            elim (Bool-cases (available && is_within_cycle c.latest_received_position chunk)) [
              | inr t ↦
                  let same : o ≡ (counted, (source, sealed_error fresh 4) ∷ []) =
                    ground (arith, rw (handle_request, p, reply_chunk, f, t) at e) in
                  rw same (
                    (sealed_error fresh 4, refl, inr (p, inl (refl, stale available f t))),
                    refl,
                    refl,
                  )
              | inl t ↦
                  let on : available ≡ true = ground (arith, t) in
                  let recent : IsRecent c chunk = ground (arith, t) in
                  let held = available-Holds b i (f ∙ ap some on) in
                  let given = handle_request-Holds fresh c source chunk held.0 p held.1 recent in
                  let same : o ≡ (given.0, (source, held.0) ∷ []) = ground (arith, given.1, e) in
                  rw same ((held.0, refl, inr (p, inr (held.1, recent))), given.2, given.3)
            ]
      ]
    ]
  where
    stale :
        (available : Bool)
        → is_available c.media_buffer chunk.position ≡ some available
        → available && is_within_cycle c.latest_received_position chunk ≡ false
        → (m : List ℕ) → Holds c.media_buffer chunk.position m
        → is_within_cycle c.latest_received_position chunk ≡ false
    stale available f t m h =
        ground (arith, f, t, (Holds-available c.media_buffer chunk.position m h).0)

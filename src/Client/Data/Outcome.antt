-- ===== src/Client/Data/Outcome.antt =====
-- How `HandleDataMessage` of src/client/client.cpp ends.
use tvpp_dev_base.Base.{
  ℕ, ◌+◌, ◌≡◌, refl, ap, ◌⊎◌, inl, inr, true, false, if◌then◌else◌, some, List, [], ◌∷◌, ◌++◌, ◌∙◌,
  length, arith, Option-cases, Bool-cases,
}
use tvpp_dev_base.ChunkUniqueId.{ChunkUniqueId, gt_id}
use tvpp_dev_base.PeerManager.{ins, is_peer_active}
use tvpp_dev_base.MediaBuffer.{MediaBuffer, insert_media}
use tvpp_dev_base.Request.{Request}
use tvpp_dev_base.Client.{Client, Outbox, sealed_error}
use tvpp_dev_base.Client.Data.{
  received_chunk, is_copy, take_request, has_attempt, put_old_request, modify_peer,
  dec_pending_requests, forwarded, accept_data, receive_data, handle_data,
}
use tvpp_dev_base.Client.Data.Asked.{IsAsked, take_request-first, has_attempt-WasTried}

-- The client after a message of a partner, before it looks at the chunk.
abbrev pub heard_from : Client → ℕ → Client
heard_from c source = modify_peer c source dec_pending_requests

-- The client once a chunk is accepted, with the buffer `b`.
abbrev pub accepted : Client → ℕ → List ℕ → ℕ → Request → List Request → MediaBuffer → Client
accepted c source m delay r rest b =
    record (modify_peer
      (record c {
        request_list = rest;
        old_request_list = put_old_request c.old_request_list r.chunk_uid r;
      })
      source (λ d. record d { delay = delay })) {
        media_buffer = b;
        latest_received_position =
            if gt_id (received_chunk m) c.latest_received_position
            then received_chunk m
            else c.latest_received_position;
      }

-- A stranger is told so; a copy is counted; a chunk that nobody asked this partner for is dropped; and a
-- chunk that answers a request is stored.
pub data DataOutcome (fresh : List ℕ) (c : Client) (source : ℕ) (m : List ℕ) (delay : ℕ)
    (o : Client × Outbox) : Type 0 where
  stranger :
      is_peer_active c.peer_manager source ins ≡ false
      → o ≡ (c, (source, sealed_error fresh 6) ∷ [])
      → DataOutcome fresh c source m delay o
  copied :
      is_peer_active c.peer_manager source ins ≡ true
      → is_copy c.media_buffer (received_chunk m) ≡ some true
      → o ≡ (record (heard_from c source) { chunks_overload = c.chunks_overload + 1 }, [])
      → DataOutcome fresh c source m delay o
  dropped :
      is_peer_active c.peer_manager source ins ≡ true
      → is_copy c.media_buffer (received_chunk m) ≡ some false
      → o ≡ (heard_from c source, [])
      → DataOutcome fresh c source m delay o
  stored :
      (r : Request) (rest : List Request) (b : MediaBuffer)
      → is_peer_active c.peer_manager source ins ≡ true
      → is_copy c.media_buffer (received_chunk m) ≡ some false
      → take_request c.request_list (received_chunk m) ≡ some (r, rest)
      → has_attempt r.attempts source ≡ true
      → insert_media c.media_buffer (forwarded m (length r.attempts)) true ≡ some b
      → o ≡ (accepted (heard_from c source) source m delay r rest b, [])
      → DataOutcome fresh c source m delay o

received-DataOutcome :
    (fresh : List ℕ) (c c' : Client) (source : ℕ) (m : List ℕ) (delay : ℕ)
    → is_peer_active c.peer_manager source ins ≡ true
    → receive_data (heard_from c source) source m delay ≡ some c'
    → DataOutcome fresh c source m delay (c', [])
unfolding receive_data accept_data
received-DataOutcome fresh c c' source m delay p e =
    let chunk = received_chunk m in
    elim (Option-cases (is_copy c.media_buffer chunk)) [
      | inl f ↦ absurd (ground (arith, rw (receive_data, f) at e))
      | inr (true, f) ↦ copied p f (ground (arith, rw (receive_data, f) at e))
      | inr (false, f) ↦ elim (Option-cases (take_request c.request_list chunk)) [
        | inl g ↦ dropped p f (ground (arith, rw (receive_data, f, g) at e))
        | inr ((r, rest), g) ↦ elim (Bool-cases (has_attempt r.attempts source)) [
          | inr h ↦ dropped p f (ground (arith, rw (receive_data, f, g, h) at e))
          | inl h ↦
              elim (Option-cases
                (insert_media c.media_buffer (forwarded m (length r.attempts)) true)) [
                  | inl k ↦ absurd (ground (arith, rw (receive_data, f, g, h, accept_data, k) at e))
                  | inr (b, k) ↦
                      stored r rest b p f g h k
                        (ground (arith, rw (receive_data, f, g, h, accept_data, k) at e))
                ]
        ]
      ]
    ]

pub data-DataOutcome :
    (fresh : List ℕ) (c : Client) (source : ℕ) (m : List ℕ) (delay : ℕ) (o : Client × Outbox)
    → handle_data fresh c source m delay ≡ some o
    → DataOutcome fresh c source m delay o
unfolding handle_data
data-DataOutcome fresh c source m delay o e =
    elim (Bool-cases (is_peer_active c.peer_manager source ins)) [
      | inr p ↦ stranger p (ground (arith, rw (handle_data, p) at e))
      | inl p ↦ elim (Option-cases (receive_data (heard_from c source) source m delay)) [
        | inl f ↦ absurd (ground (arith, rw (handle_data, p, f) at e))
        | inr (c', f) ↦
            let same : (c', []) ≡ o = ground (arith, rw (handle_data, p, f) at e) in
            rw same at (received-DataOutcome fresh c c' source m delay p f)
      ]
    ]

-- What is about the stream is as it was.
abbrev pub IsUntouched : Client → Client → Type 0
IsUntouched c c' =
    (c'.media_buffer ≡ c.media_buffer)
    × (c'.latest_received_position ≡ c.latest_received_position)
    × (c'.request_list ≡ c.request_list)

-- A request that was put to the peer is done.
abbrev pub IsAnswered : Client → ℕ → ChunkUniqueId → Client → Type 0
IsAnswered c source chunk c' =
    (before : List Request) × (r : Request) × (later : List Request) × IsAsked c source chunk before
      r later
    × (c'.request_list ≡ before ++ later)

IsUntouched-by : (c c' x : Client) → c' ≡ x → IsUntouched c x → IsUntouched c c'
IsUntouched-by c c' x same h = rw same h

-- A data message changes the media buffer, the latest chunk and the list of requests only if its sender is
-- an active partner of the in list, the list has a request for the cycle and the position of the chunk, and
-- an attempt of the first such request was made with that partner; just that request is then taken from
-- the list.
pub handle_data-unsolicited :
    (fresh : List ℕ) (c c' : Client) (source : ℕ) (m : List ℕ) (delay : ℕ) (sent : Outbox)
    → handle_data fresh c source m delay ≡ some (c', sent)
    → IsUntouched c c' ⊎ IsAnswered c source (received_chunk m) c'
unfolding is_peer_active
handle_data-unsolicited fresh c c' source m delay sent e =
    by_outcome (data-DataOutcome fresh c source m delay (c', sent) e)
  where
    by_outcome :
        DataOutcome fresh c source m delay (c', sent)
        → IsUntouched c c' ⊎ IsAnswered c source (received_chunk m) c'
    by_outcome (stranger p o) =
        inl (IsUntouched-by c c' c (ap (λ (x : Client × Outbox). x.0) o) (refl, refl, refl))
    by_outcome (copied p f o) =
        inl (IsUntouched-by c c' _ (ap (λ (x : Client × Outbox). x.0) o) (refl, refl, refl))
    by_outcome (dropped p f o) =
        inl (IsUntouched-by c c' _ (ap (λ (x : Client × Outbox). x.0) o) (refl, refl, refl))
    by_outcome (stored r rest b p f g h k o) =
        let same = ap (λ (x : Client × Outbox). x.0) o in
        let found = take_request-first c.request_list (received_chunk m) r rest g in
        inr (
          found.0,
          r,
          found.1,
          record {
            is_partner = p;
            listed = found.2;
            names = found.4;
            is_first = found.5;
            tried = has_attempt-WasTried r.attempts source h;
          },
          ap (λ (x : Client). x.request_list) same ∙ found.3,
        )

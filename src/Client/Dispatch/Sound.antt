-- ===== src/Client/Dispatch/Sound.antt =====
-- The handlers of src/client/client.cpp and the partners that the client keeps.
use tvpp_dev_base.Base.{
  ℕ, ◌/◌, ◌≡◌, refl, inl, inr, Bool, true, false, ◌==◌, Option, none, some, List, [], arith,
  Option-cases, Bool-cases, get_or,
}
use tvpp_dev_base.Base.Int.{pos, negsuc}
use tvpp_dev_base.PeerData.{PeerData, make_peer, set_mode, set_ttl_in, set_ttl_out, set_chunk_map}
use tvpp_dev_base.PeerManager.{
  PeerManager, Which, ins, is_peer_active, add_peer, connect_peer, entry, put, get_peer_active_out,
  is_active_out_free,
}
use tvpp_dev_base.PeerManager.Sweep.{known}
use tvpp_dev_base.PeerManager.Connection.{connect_peer-Connected}
use tvpp_dev_base.PeerManager.Named.{
  HasNamed, put-is_named, put-known, add_peer-HasNamed, connect_peer-HasNamed,
}
use tvpp_dev_base.PeerManager.Valid.{
  IsValid, members-known, peer_list-IsValid, add_peer-IsValid, connect_peer-IsValid,
}
use tvpp_dev_base.Message.{get_opcode, get_header_size, get_header_values}
use tvpp_dev_base.Messages.{error_sizes}
use tvpp_dev_base.Client.{Client, Outbox, requested_chunk, handle_request, handle_error}
use tvpp_dev_base.Client.Requested.{handle_request_answers}
use tvpp_dev_base.Client.Bits.{bytes_to_bitset, bytes_at}
use tvpp_dev_base.Client.Data.{modify_peer, dec_pending_requests, handle_data}
use tvpp_dev_base.Client.Data.Outcome.{
  DataOutcome, stranger, copied, dropped, stored, data-DataOutcome, heard_from,
}
use tvpp_dev_base.Client.Dispatch.{Source, Handled, counted_data, handle_udp}
use tvpp_dev_base.Client.Pings.{
  PingValues, modify_entry, admit_peer, ping_in, ping_out, handle_ping, ping_values_of,
}

-- The partners are valid, and every entry holds the peer of its id.
pub record IsSound (p : PeerManager) : Type 0 where
  pub valid : IsValid p
  pub named : HasNamed p

-- A change of an entry that keeps its peer.
modify_entry-IsSound :
    (p : PeerManager) (k : ℕ) (f : PeerData → PeerData)
    → ((d : PeerData) → (f d).peer ≡ d.peer)
    → known (p.peer_list k) k ≡ true
    → IsSound p
    → IsSound (modify_entry p k f) × (known ((modify_entry p k f).peer_list k) k ≡ true)
modify_entry-IsSound p k f same h s =
    let d = f (entry (p.peer_list k)) in
    let kept = changed (p.peer_list k) h in
    (
      record {
        valid =
            peer_list-IsValid p (put p.peer_list k (some d)) (put-known p.peer_list k d kept)
              s.valid;
        named = put-is_named p.peer_list k d s.named kept;
      },
      put-known p.peer_list k d kept k h,
    )
  where
    changed : (e : Option PeerData) → known e k ≡ true → known (some (f (entry e))) k ≡ true
    changed none h = absurd (ground (arith, h))
    changed (some d) h = rw (same d) h

-- The values of a ping admit its source.
admit_peer-IsSound :
    (p q : PeerManager) (w : Which) (source ip : ℕ) (v : PingValues) (b : Bool)
    → admit_peer p w source ip v ≡ some (q, b)
    → IsSound p
    → IsSound q × (known (q.peer_list source) source ≡ true)
unfolding admit_peer make_peer
admit_peer-IsSound p q w source ip v b e s =
    let new = make_peer source ip (pos v.size_out) (pos v.size_out_free) (negsuc 0) in
    elim (Option-cases (add_peer p new (pos v.size_out) (pos v.size_out_free))) [
      | inl f ↦ absurd (ground (arith, rw (admit_peer, f) at e))
      | inr ((t, p1), f) ↦
          let added =
            add_peer-HasNamed p p1 new (pos v.size_out) (pos v.size_out_free) t f s.named in
          let sound : IsSound p1 = record {
            valid = add_peer-IsValid p new (pos v.size_out) (pos v.size_out_free) t p1 f s.valid;
            named = added.0;
          } in
          elim (Bool-cases (is_peer_active p1 source w)) [
            | inl a ↦
                let same : q ≡ p1 = ground (arith, rw (admit_peer, f, a) at e) in
                rw same (sound, added.1)
            | inr a ↦ elim (Option-cases (connect_peer p1 source w)) [
              | inl g ↦ absurd (ground (arith, rw (admit_peer, f, a, g) at e))
              | inr ((done, p2), g) ↦
                  let same : q ≡ p2 = ground (arith, rw (admit_peer, f, a, g) at e) in
                  rw same (
                    record {
                      valid = connect_peer-IsValid p1 source w done p2 g added.1 sound.valid;
                      named = connect_peer-HasNamed p1 p2 source w done g added.1 sound.named;
                    },
                    (connect_peer-Connected p1 source w done p2 g).peers source added.1,
                  )
            ]
          ]
    ]

ping_in-IsSound :
    (c c' : Client) (source ip : ℕ) (v : PingValues) (bits : List Bool)
    → ping_in c source ip v bits ≡ some c'
    → IsSound c.peer_manager
    → IsSound c'.peer_manager
unfolding ping_in set_mode set_ttl_in set_chunk_map
ping_in-IsSound c c' source ip v bits e s =
    elim (Option-cases (admit_peer c.peer_manager ins source ip v)) [
      | inl f ↦ absurd (ground (arith, rw (ping_in, f) at e))
      | inr ((p, false), f) ↦
          let same : c' ≡ record c { peer_manager = p } = ground (arith, rw (ping_in, f) at e) in
          rw same (admit_peer-IsSound c.peer_manager p ins source ip v false f s).0
      | inr ((p, true), f) ↦
          let admitted = admit_peer-IsSound c.peer_manager p ins source ip v true f s in
          let q = modify_entry p source (λ d. set_mode (set_ttl_in d c.ttl_max_in) v.mode) in
          let mapped = modify_entry q source (λ d. set_chunk_map d v.tip_chunk bits) in
          let alive =
            modify_entry-IsSound p source (λ d. set_mode (set_ttl_in d c.ttl_max_in) v.mode)
              (λ d. refl) admitted.1 admitted.0 in
          elim (Bool-cases (v.ping_type == 4)) [
            | inr t ↦
                let same : c' ≡ record c { peer_manager = q } =
                  ground (arith, rw (ping_in, f, t) at e) in
                rw same alive.0
            | inl t ↦ elim (Bool-cases (is_peer_active q source ins)) [
              | inr a ↦
                  let same : c' ≡ record c { peer_manager = q } =
                    ground (arith, rw (ping_in, f, t, a) at e) in
                  rw same alive.0
              | inl a ↦
                  let same : c' ≡ record c { peer_manager = mapped } =
                    ground (arith, rw (ping_in, f, t, a) at e) in
                  rw same
                    (modify_entry-IsSound q source (λ d. set_chunk_map d v.tip_chunk bits)
                      (λ d. refl) alive.1 alive.0).0
            ]
          ]
    ]

ping_out-IsSound :
    (separated : Bool) (c c' : Client) (source ip : ℕ) (v : PingValues)
    → ping_out separated c source ip v ≡ some c'
    → IsSound c.peer_manager
    → IsSound c'.peer_manager
unfolding ping_out set_mode set_ttl_out
ping_out-IsSound separated c c' source ip v e s =
    let w = get_peer_active_out c.peer_manager separated v.size_out in
    elim (Option-cases (admit_peer c.peer_manager w source ip v)) [
      | inl f ↦ absurd (ground (arith, rw (ping_out, f) at e))
      | inr ((p, false), f) ↦
          let same : c' ≡ record c { peer_manager = p } = ground (arith, rw (ping_out, f) at e) in
          rw same (admit_peer-IsSound c.peer_manager p w source ip v false f s).0
      | inr ((p, true), f) ↦
          let admitted = admit_peer-IsSound c.peer_manager p w source ip v true f s in
          let change : PeerData → PeerData =
            λ d. set_mode (set_ttl_out d c.ttl_max_out (is_active_out_free w)) v.mode in
          let same : c' ≡ record c { peer_manager = modify_entry p source change } =
            ground (arith, rw (ping_out, f) at e) in
          rw same
            (modify_entry-IsSound p source change (λ d. out_peer d (is_active_out_free w))
              admitted.1 admitted.0).0
    ]
  where
    out_peer :
        (d : PeerData) (free : Bool)
        → (set_mode (set_ttl_out d c.ttl_max_out free) v.mode).peer ≡ d.peer
    out_peer d true = refl
    out_peer d false = refl

ping-IsSound :
    (separated : Bool) (c c' : Client) (source ip : ℕ) (m : List ℕ)
    → handle_ping separated c source ip m ≡ some c'
    → IsSound c.peer_manager
    → IsSound c'.peer_manager
unfolding handle_ping
ping-IsSound separated c c' source ip m e s =
    let v = ping_values_of m in
    elim (Bool-cases (v.ping_type == 5)) [
      | inl t ↦ ping_out-IsSound separated c c' source ip v (rw (handle_ping, t) at e) s
      | inr t ↦
          ping_in-IsSound c c' source ip v
            (bytes_to_bitset (bytes_at m (get_header_size m) (c.buffer_size / 8)))
            (rw (handle_ping, t) at e) s
    ]

pub modify_peer-IsSound :
    (c : Client) (k : ℕ) (f : PeerData → PeerData)
    → ((d : PeerData) → (f d).peer ≡ d.peer)
    → known (c.peer_manager.peer_list k) k ≡ true
    → IsSound c.peer_manager
    → IsSound (modify_peer c k f).peer_manager
      × (known ((modify_peer c k f).peer_manager.peer_list k) k ≡ true)
modify_peer-IsSound c k f same h s = modify_entry-IsSound c.peer_manager k f same h s

data-IsSound :
    (fresh : List ℕ) (c : Client) (source : ℕ) (m : List ℕ) (delay : ℕ) (o : Client × Outbox)
    → handle_data fresh c source m delay ≡ some o
    → IsSound c.peer_manager
    → IsSound o.0.peer_manager
unfolding is_peer_active
data-IsSound fresh c source m delay o e s = by_outcome (data-DataOutcome fresh c source m delay o e)
  where
    heard :
        is_peer_active c.peer_manager source ins ≡ true
        → IsSound (heard_from c source).peer_manager
          × (known ((heard_from c source).peer_manager.peer_list source) source ≡ true)
    heard p =
        modify_peer-IsSound c source dec_pending_requests (λ d. refl)
          (members-known c.peer_manager s.valid.are_known ins source p) s

    by_outcome : DataOutcome fresh c source m delay o → IsSound o.0.peer_manager
    by_outcome (stranger p q) = rw q s
    by_outcome (copied p f q) = rw q (heard p).0
    by_outcome (dropped p f q) = rw q (heard p).0
    by_outcome (stored r rest b p f g h k q) =
        let timed =
          modify_peer-IsSound (heard_from c source) source (λ d. record d { delay = delay })
            (λ d. refl) (heard p).1 (heard p).0 in
        rw q timed.0

error_keeps : (c : Client) (code : ℕ) → (handle_error c code).0.peer_manager ≡ c.peer_manager
unfolding handle_error
error_keeps c code = ground arith

-- A message keeps the partners sound.
pub udp-IsSound :
    (fresh : List ℕ) (separated : Bool) (delay : ℕ) (c : Client) (source : Source) (m : List ℕ)
    (o : Handled)
    → handle_udp fresh separated delay c source m ≡ some o
    → IsSound c.peer_manager
    → IsSound o.0.0.peer_manager
unfolding handle_udp
udp-IsSound fresh separated delay c source m o e s = elim (Bool-cases (get_opcode m == 3)) [
  | inl t ↦ elim (Option-cases (handle_request fresh c source.id (requested_chunk m))) [
    | inl f ↦ absurd (ground (arith, rw (handle_udp, t, f) at e))
    | inr (r, f) ↦
        let same : o ≡ (r, false) = ground (arith, rw (handle_udp, t, f) at e) in
        rw same (rw (handle_request_answers fresh c source.id (requested_chunk m) r f).2 s)
  ]
  | inr t ↦ elim (Bool-cases (get_opcode m == 4)) [
    | inl t4 ↦ elim (Option-cases (handle_data fresh (counted_data c m) source.id m delay)) [
      | inl f ↦ absurd (ground (arith, rw (handle_udp, t, t4, f) at e))
      | inr (r, f) ↦
          let same : o ≡ (r, false) = ground (arith, rw (handle_udp, t, t4, f) at e) in
          rw same (data-IsSound fresh (counted_data c m) source.id m delay r f s)
    ]
    | inr t4 ↦ elim (Bool-cases (get_opcode m == 5)) [
      | inl t5 ↦
          let code = get_or (get_header_values error_sizes m) 0 0 in
          let same : o ≡ (((handle_error c code).0, []), (handle_error c code).1) =
            ground (arith, rw (handle_udp, t, t4, t5) at e) in
          rw same (rw (error_keeps c code) s)
      | inr t5 ↦ elim (Bool-cases (get_opcode m == 2)) [
        | inl t2 ↦ elim (Option-cases (handle_ping separated c source.id source.ip m)) [
          | inl f ↦ absurd (ground (arith, rw (handle_udp, t, t4, t5, t2, f) at e))
          | inr (c', f) ↦
              let same : o ≡ ((c', []), false) =
                ground (arith, rw (handle_udp, t, t4, t5, t2, f) at e) in
              rw same (ping-IsSound separated c c' source.id source.ip m f s)
        ]
        | inr t2 ↦
            let same : o ≡ ((c, []), false) = ground (arith, rw (handle_udp, t, t4, t5, t2) at e) in
            rw same s
      ]
    ]
  ]
]

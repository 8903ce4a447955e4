-- ===== src/Messages/Classes.antt =====
-- The constructors of the message classes, read back field by field, and the setters of
-- `MessageData`.
use tvpp_dev_base.Base.{
  ℕ, ◌+◌, ◌^◌, ◌≤◌, ◌<◌, ◌≡◌, refl, ◌∙◌, ◌⊎◌, inl, Option, none, some, List, [], ◌∷◌, ◌++◌, arith,
  ap, length, set, length-append,
}
use tvpp_dev_base.Message.Memory.{
  get_or-write_int, read_int-agree, read_int-write_int, read_int-set_ne, read_int-set_self,
}
use tvpp_dev_base.ChunkUniqueId.{ChunkUniqueId}
use tvpp_dev_base.Message.{
  read_int, write_int, assemble_header_values, assemble_start, split_start, split_value,
  get_header_values, set_integrity, IsBytes,
}
use tvpp_dev_base.Message.CodedByte.{set_coded_byte-set}
use tvpp_dev_base.Messages.{
  media, ping_boot_perf, data_sizes, data_values, message_data, set_hop, set_tries, set_duration,
  ping_boot_perf_sizes, ping_boot_values,
}
use tvpp_dev_base.Messages.Reports.{
  Performance, sample_values, performance_values, message_ping_boot_perf,
}
use tvpp_dev_base.Messages.Sealed.{sealed_message, Fit}

-- The identifiers that fit their fields.
abbrev pub IsU : ChunkUniqueId → Type 0
IsU c = (c.cycle < 2 ^ 32) × (c.position < 2 ^ 16)

-- A sealed data message carries its hop count, its tries, the chunk, and the two times.
pub message_data-values :
    (fresh : List ℕ) (body_size hop tries : ℕ) (chunk : ChunkUniqueId) (generated duration : ℕ)
    → 22 ≤ length fresh
    → body_size < 2 ^ 16
    → (hop < 2 ^ 8) × (tries < 2 ^ 8)
    → IsU chunk
    → (generated < 2 ^ 32) × (duration < 2 ^ 32)
    → get_header_values data_sizes
        (set_integrity (message_data fresh body_size hop tries chunk generated duration))
      ≡ hop ∷ tries ∷ chunk.cycle ∷ chunk.position ∷ generated ∷ duration ∷ []
unfolding message_data
message_data-values fresh body_size hop tries chunk generated duration room b h c t =
    (sealed_message media fresh body_size (data_values hop tries chunk generated duration) room b
      refl (h.0, (h.1, (c.0, (c.1, (t.0, (t.1, tt))))))).4

length-sample_values : (p : Performance) (c : Option ChunkUniqueId) → length (sample_values p c) ≡ 5
length-sample_values p none = refl
length-sample_values p (some c) = refl

length-performance_values : (p : Performance) → length (performance_values p) ≡ 21
length-performance_values p = omega (
  arith,
  length-append (sample_values p p.last_media_id) (
      p.nowtime ∷ p.neighborhood_size_in ∷ p.neighborhood_size_out ∷ p.neighborhood_size_out_free
      ∷ []),
  length-sample_values p p.last_media_id,
)

-- A sealed boot ping with performance data carries every value that the peer gave, if these fit their
-- fields, as those of a sample chunk do.
pub message_ping_boot_perf-values :
    (fresh : List ℕ) (mode : ℕ) (chunk : ChunkUniqueId) (rate channel_id out out_free : ℕ)
    (p : Performance)
    → 102 ≤ length fresh
    → Fit ping_boot_perf_sizes
        (ping_boot_values 2 mode chunk out out_free rate channel_id ++ performance_values p)
    → get_header_values ping_boot_perf_sizes
        (set_integrity (message_ping_boot_perf fresh mode chunk rate channel_id out out_free p))
      ≡ ping_boot_values 2 mode chunk out out_free rate channel_id ++ performance_values p
unfolding message_ping_boot_perf
message_ping_boot_perf-values fresh mode chunk rate channel_id out out_free p room f =
    (sealed_message ping_boot_perf fresh 0
      (ping_boot_values 2 mode chunk out out_free rate channel_id ++ performance_values p) room
      (omega arith) (omega (arith, length-performance_values p)) f).4

-- Where the fields of a data message lie.
pub data_fields :
    (m : List ℕ)
    → get_header_values data_sizes m
      ≡ read_int m 6 1
        ∷ read_int m 7 1
        ∷ read_int m 8 4
        ∷ read_int m 12 2
        ∷ read_int m 14 4
        ∷ read_int m 18 4
        ∷ []
unfolding get_header_values split_start split_value
data_fields m = refl

set_duration-write_int :
    (m : List ℕ) (duration : ℕ) → set_duration m duration ≡ write_int m 18 4 duration
unfolding set_duration assemble_header_values assemble_start
set_duration-write_int m duration = refl

-- `SetDuration` changes the duration of a data message and no other value of its header.
pub set_duration-values :
    (m : List ℕ) (duration : ℕ)
    → 22 ≤ length m
    → duration < 2 ^ 32
    → get_header_values data_sizes (set_duration m duration)
      ≡ set (get_header_values data_sizes m) 5 duration
set_duration-values m duration room d =
    ap (get_header_values data_sizes) (set_duration-write_int m duration)
    ∙ rw (
      data_fields,
      data_fields,
      before 6 1 (omega arith),
      before 7 1 (omega arith),
      before 8 4 (omega arith),
      before 12 2 (omega arith),
      before 14 4 (omega arith),
      written,
    )
  where
    before : (p n : ℕ) → p + n ≤ 18 → read_int (write_int m 18 4 duration) p n ≡ read_int m p n
    before p n h =
        read_int-agree (write_int m 18 4 duration) m p n
          (λ i a b. get_or-write_int m 18 4 duration i (inl (omega arith)))

    written : read_int (write_int m 18 4 duration) 18 4 ≡ duration
    written = read_int-write_int m 18 4 duration room ∙ omega arith

-- On a packet of bytes `SetHop` and `SetTries` change the hop count and the tries, and no other value
-- of the header.
pub set_hop-set_tries-values :
    (m : List ℕ) (hop tries : ℕ)
    → IsBytes m
    → 8 ≤ length m
    → (hop < 2 ^ 8) × (tries < 2 ^ 8)
    → (get_header_values data_sizes (set_hop m hop) ≡ set (get_header_values data_sizes m) 0 hop)
      × (get_header_values data_sizes (set_tries m tries)
          ≡ set (get_header_values data_sizes m) 1 tries)
unfolding set_hop set_tries
set_hop-set_tries-values m hop tries b room h = (
  ap (get_header_values data_sizes) (set_coded_byte-set m 6 hop b h.0)
      ∙ rw (
        data_fields,
        data_fields,
        read_int-set_self m 6 hop (omega arith),
        other 6 hop 7 1 (omega arith),
        other 6 hop 8 4 (omega arith),
        other 6 hop 12 2 (omega arith),
        other 6 hop 14 4 (omega arith),
        other 6 hop 18 4 (omega arith),
      ),
  ap (get_header_values data_sizes) (set_coded_byte-set m 7 tries b h.1)
      ∙ rw (
        data_fields,
        data_fields,
        read_int-set_self m 7 tries (omega arith),
        other 7 tries 6 1 (omega arith),
        other 7 tries 8 4 (omega arith),
        other 7 tries 12 2 (omega arith),
        other 7 tries 14 4 (omega arith),
        other 7 tries 18 4 (omega arith),
      ),
)
  where
    other : (i v p n : ℕ) → (i < p) ⊎ (p + n ≤ i) → read_int (set m i v) p n ≡ read_int m p n
    other = read_int-set_ne m

-- ===== src/Protocol/Frame/Merging.antt =====
-- The loop of `reassemble_frame` of crates/protocol/src/frame.rs over the packets of one frame.
use mathlib.Core.List.{append-nil, append_assoc}
use teamview.Prelude.{
  ℕ, zero, suc, ◌+◌, ◌%◌, ◌^◌, ◌≤◌, ◌<◌, ◌≡◌, ◌≢◌, refl, ap, ◌∙◌, sym, subst, false, List, ◌∷◌,
  ◌++◌, length, ◌==◌, ne→==, eq→==, Option, none, some, arith, Bool-cases, inl, inr, xor_self, xor,
}
use teamview.Prelude.Int.{eq_ℤ_iff}
use teamview.Prelude.Result.{ok}
use teamview.Protocol.Codec.{eq_codec_iff}
use teamview.Protocol.Wire.{Wire}
use teamview.Protocol.Packet.{
  PacketType, MediaPacket, MediaPacketHeader, eq_packet_type_iff, contains_flag, keyframe,
  end_of_frame,
}
use teamview.Protocol.Frame.{
  EncodedFrame, fragment_flags, fragment_packet, index_of, metadata_differs, Assembly, is_some_of,
  merge_packet, assemble,
}
use teamview.Protocol.Frame.Fragments.{
  chunk, fragments, payloads, CanCarry, validate-fragment_packet,
}
use teamview.Protocol.Frame.Order.{Ascending, AllValid}

pub keyframe-fragment_flags :
    (frame : EncodedFrame) (count index : ℕ)
    → contains_flag (fragment_flags frame count index) keyframe ≡ frame.is_keyframe
unfolding contains_flag fragment_flags
keyframe-fragment_flags frame count index = elim (Bool-cases frame.is_keyframe) [
  | inl k ↦ elim (Bool-cases (index + 1 == count)) [ inl e ↦ rw (k, e) | inr e ↦ rw (k, e) ]
  | inr k ↦ elim (Bool-cases (index + 1 == count)) [ inl e ↦ rw (k, e) | inr e ↦ rw (k, e) ]
]

end_of_frame-fragment_flags :
    (frame : EncodedFrame) (count index : ℕ)
    → contains_flag (fragment_flags frame count index) end_of_frame ≡ (index + 1 == count)
unfolding contains_flag fragment_flags
end_of_frame-fragment_flags frame count index = elim (Bool-cases frame.is_keyframe) [
  | inl k ↦ elim (Bool-cases (index + 1 == count)) [ inl e ↦ rw (k, e) | inr e ↦ rw (k, e) ]
  | inr k ↦ elim (Bool-cases (index + 1 == count)) [ inl e ↦ rw (k, e) | inr e ↦ rw (k, e) ]
]

metadata_same :
    (h f : MediaPacketHeader)
    → h.fragment_count ≡ f.fragment_count
    → h.frame_id ≡ f.frame_id
    → h.room_stream_id ≡ f.room_stream_id
    → h.codec ≡ f.codec
    → h.packet_type ≡ f.packet_type
    → h.layer ≡ f.layer
    → h.media_timestamp ≡ f.media_timestamp
    → h.sender_capture_time_micros ≡ f.sender_capture_time_micros
    → h.sender_clock_offset_micros ≡ f.sender_clock_offset_micros
    → contains_flag h.flags keyframe ≡ contains_flag f.flags keyframe
    → metadata_differs h f ≡ false
unfolding metadata_differs
metadata_same h f e₁ e₂ e₃ e₄ e₅ e₆ e₇ e₈ e₉ e₁₀ =
    rw
      (
        eq→== h.fragment_count f.fragment_count e₁,
        eq→== h.frame_id f.frame_id e₂,
        eq→== h.room_stream_id f.room_stream_id e₃,
        (eq_codec_iff h.codec f.codec).1 e₄,
        (eq_packet_type_iff h.packet_type f.packet_type).1 e₅,
        eq→== h.layer f.layer e₆,
        eq→== h.media_timestamp f.media_timestamp e₇,
        eq→== h.sender_capture_time_micros f.sender_capture_time_micros e₈,
        (eq_ℤ_iff h.sender_clock_offset_micros f.sender_clock_offset_micros).1 e₉,
        e₁₀,
      )
      (xor_self _)

-- The loop's variables while the packets of `frame` are merged.
abbrev pub merged : EncodedFrame → List ℕ → Option ℕ → Assembly
merged frame bytes previous = record {
  encode_done = frame.sender_encode_done_time_micros;
  send = frame.sender_send_time_micros;
  server_receive = frame.server_receive_time_micros;
  server_send = frame.server_send_time_micros;
  bytes = bytes;
  previous = previous;
}

module _ (frame : EncodedFrame) (t : PacketType) (first m count : ℕ) (small : count ≤ 65535) where
  abbrev pub packet : ℕ → List ℕ → MediaPacket
  packet = fragment_packet frame t first count

  metadata_differs-packet :
      (i j : ℕ) (xs ys : List ℕ)
      → metadata_differs (packet i xs).header (packet j ys).header ≡ false
  unfolding fragment_packet
  metadata_differs-packet i j xs ys =
      metadata_same (packet i xs).header (packet j ys).header refl refl refl refl refl refl refl
        refl refl
        (keyframe-fragment_flags frame count i ∙ sym (keyframe-fragment_flags frame count j))

  index_of-packet : (i : ℕ) (xs : List ℕ) → index_of (packet i xs) ≡ i % 2 ^ 16
  unfolding fragment_packet
  index_of-packet i xs = refl

  is_some_of_ne :
      (i : ℕ) (xs : List ℕ) (previous : Option ℕ)
      → i < count
      → previous ≢ some i
      → is_some_of previous (index_of (packet i xs)) ≡ false
  unfolding is_some_of
  is_some_of_ne i xs none h new = refl
  is_some_of_ne i xs (some j) h new =
      ne→== j (index_of (packet i xs)) λ e. new (ap some (e ∙ index_of-packet i xs ∙ omega arith))

  end_of_frame-packet :
      (i : ℕ) (xs ys : List ℕ)
      → i < count
      → xor
          (contains_flag (packet i xs).header.flags end_of_frame)
          (i + 1 == (packet 0 ys).header.fragment_count)
        ≡ false
  unfolding fragment_packet
  end_of_frame-packet i xs ys h =
      let whole : count % 2 ^ 16 ≡ count = omega arith in
      rw (end_of_frame-fragment_flags frame count i, whole) (xor_self _)

  merge_packet-merged :
      (i : ℕ) (xs bytes : List ℕ) (previous : Option ℕ)
      → i < count
      → merge_packet (merged frame bytes previous) (packet i xs)
        ≡ merged frame (bytes ++ xs) (some i)
  unfolding merge_packet fragment_packet
  merge_packet-merged i xs bytes previous h = ground arith

  assemble_step :
      (i : ℕ) (xs bytes ys : List ℕ) (previous : Option ℕ) (ps : List MediaPacket)
      → i < count
      → previous ≢ some i
      → assemble (packet 0 ys).header i (merged frame bytes previous) (packet i xs ∷ ps)
        ≡ assemble (packet 0 ys).header (i + 1) (merged frame (bytes ++ xs) (some i)) ps
  unfolding assemble
  assemble_step i xs bytes ys previous ps h new = rw (
    is_some_of_ne i xs previous h new,
    eq→== (index_of (packet i xs)) (i % 2 ^ 16) (index_of-packet i xs),
    metadata_differs-packet i 0 xs ys,
    end_of_frame-packet i xs ys h,
    merge_packet-merged i xs bytes previous h,
  )

  pub assemble-fragments :
      (rounds i : ℕ) (bytes ys : List ℕ) (previous : Option ℕ)
      → i + rounds ≡ count
      → previous ≢ some i
      → let ps = fragments frame t first m count rounds i in
        (last : Option ℕ) × (assemble (packet 0 ys).header i (merged frame bytes previous) ps
          ≡ ok (merged frame (bytes ++ payloads ps) last))
  unfolding fragments fragment_packet
  assemble-fragments zero i bytes ys previous e new = (previous, unfold assemble in rw append-nil)
  assemble-fragments (suc rounds) i bytes ys previous e new =
      let xs = chunk frame m i in
      let (last, rest) =
        assemble-fragments rounds (i + 1) (bytes ++ xs) ys (some i) (omega arith)
          (λ g. absurd (ground arith)) in
      (
        last,
        assemble_step i xs bytes ys previous _ (omega arith) new
            ∙ rest
            ∙ ap (λ b. ok (merged frame b last)) (append_assoc bytes xs _),
      )

  pub length-fragments : (rounds i : ℕ) → length (fragments frame t first m count rounds i) ≡ rounds
  unfolding fragments
  length-fragments zero i = refl
  length-fragments (suc rounds) i = ap suc (length-fragments rounds (i + 1))

  pub fragments-Ascending :
      (rounds i : ℕ) → i + rounds ≡ count → Ascending i (fragments frame t first m count rounds i)
  unfolding fragments
  fragments-Ascending zero i e = tt
  fragments-Ascending (suc rounds) i e =
      let here : index_of (packet i (chunk frame m i)) ≡ i =
        index_of-packet i (chunk frame m i) ∙ omega arith in
      (
        omega arith,
        subst (λ k. Ascending k (fragments frame t first m count rounds (i + 1))) (omega arith)
            (fragments-Ascending rounds (i + 1) (omega arith)),
      )

  pub fragments-AllValid :
      (pos_m : 0 < m)
      → m ≤ 65535
      → CanCarry t frame.codec
      → (w : Wire) (rounds i : ℕ) → i + rounds ≡ count
      → AllValid (fragments frame t first m count rounds i)
  unfolding fragments
  fragments-AllValid pos_m small_m carries w zero i e = tt
  fragments-AllValid pos_m small_m carries w (suc rounds) i e = (
    validate-fragment_packet frame m pos_m w t first count small_m small carries i _ (omega arith),
    fragments-AllValid pos_m small_m carries w rounds (i + 1) (omega arith),
  )

-- ===== src/Desktop/Decode/AnyOrder.antt =====
-- The packets of one frame in crates/desktop-client/src/decode/mod.rs, in the order in which they
-- happen to arrive.
use native.Mathlib.Nat.{ℕ_set}
use mathlib.Core.List.{Perm, Permᴰ}
use mathlib.Core.Logic.{∥∥₁_elim}
use teamview.Prelude.{
  ℕ, zero, suc, ◌+◌, ◌≤◌, ◌<◌, ◌≡◌, refl, ap, sym, ◌∙◌, Option, some, List, [], length, All, subst,
  arith,
}
use teamview.Prelude.Result.{Result, ok}
use teamview.Protocol.Wire.{Wire}
use teamview.Protocol.Packet.{PacketType, MediaPacket}
use teamview.Protocol.Frame.{
  EncodedFrame, FramePacketizeError, fragment_count_of, fragment_packet, packetize_frame_with_type,
}
use teamview.Protocol.Frame.Fragments.{fragments, packetize-fragments}
use teamview.Protocol.Frame.Merging.{length-fragments, fragments-Ascending}
use teamview.Protocol.Frame.Order.{Ascending-Distinct, All-Permᴰ, Distinct-Permᴰ}
use teamview.Protocol.Frame.Reassembly.{IsMedia, media-CanCarry, reassemble-packetize}
use teamview.Desktop.Decode.{FrameReassemblyBuffer, PushError}
use teamview.Desktop.Decode.Delivery.{
  IsConfigured, IsFragmentOf, reassembled, push_all, answers, push_all-reassemble_frame,
}

fragments-IsFragmentOf :
    (frame : EncodedFrame) (t : PacketType) (first m count : ℕ) (rounds i : ℕ)
    → count ≤ 65535
    → All (IsFragmentOf frame.frame_id count) (fragments frame t first m count rounds i)
unfolding fragments fragment_packet
fragments-IsFragmentOf frame t first m count zero i small = tt
fragments-IsFragmentOf frame t first m count (suc rounds) i small = (
  record { same_frame = refl; counted = omega arith },
  fragments-IsFragmentOf frame t first m count rounds (i + 1) small,
)

length-Permᴰ : {ps qs : List MediaPacket} → Permᴰ ps qs → length ps ≡ length qs
length-Permᴰ Permᴰ.nil = refl
length-Permᴰ (Permᴰ.cons e d) = ap suc (length-Permᴰ d)
length-Permᴰ (Permᴰ.swap e f) = refl
length-Permᴰ (Permᴰ.trans d d') = length-Permᴰ d ∙ length-Permᴰ d'

pushed_set : IsSet (FrameReassemblyBuffer × List (Result PushError (Option EncodedFrame)))
pushed_set = hlevel (ℕ_set)

ok_injective :
    (xs ys : List MediaPacket)
    → ◌≡◌ {A = Result FramePacketizeError (List MediaPacket)} (ok xs) (ok ys)
    → xs ≡ ys
ok_injective xs ys e = cc

-- For a payload limit from 1 to 65535 and a frame that needs at most 65535 packets of it, the video
-- or audio packets of the frame, pushed in any order into an idle reassembly buffer with room for a
-- frame and its media time, give nothing until the last of them, then the frame, and leave the
-- buffer as it was.
pub push_all-packetize :
    (w : Wire) (b : FrameReassemblyBuffer) (frame : EncodedFrame) (t : PacketType) (first m : ℕ)
    → IsConfigured b
    → b.pending ≡ []
    → 0 < m
    → m ≤ 65535
    → fragment_count_of frame m ≤ 65535
    → IsMedia t
    → (ps : List MediaPacket) × (packetize_frame_with_type w frame t first m ≡ ok ps)
      × ((qs : List MediaPacket) → Perm ps qs → push_all b qs ≡ (b, answers qs (ok (some frame))))
push_all-packetize w b frame t first m c idle pos_m small fit media =
    let count = fragment_count_of frame m in
    let ps = fragments frame t first m count count 0 in
    let frags = fragments-IsFragmentOf frame t first m count count 0 fit in
    let up = fragments-Ascending frame t first m count fit count 0 (omega arith) in
    let (cut, all) =
      packetize-fragments w frame t first m pos_m small fit (media-CanCarry t frame media) in
    let (ps', cut', back) = reassemble-packetize w frame t first m pos_m small fit media in
    let same : ps ≡ ps' = ok_injective ps ps' (sym cut ∙ cut') in
    let size = length-fragments frame t first m count fit count 0 in
    (
      ps,
      cut,
      λ qs perm. ∥∥₁_elim perm (pushed_set _ _) λ d.
          let counted : length qs ≡ count = sym (length-Permᴰ d) ∙ size in
          let each : All (IsFragmentOf frame.frame_id (length qs)) qs =
            rw counted (All-Permᴰ (IsFragmentOf frame.frame_id count) d frags) in
          let distinct = Distinct-Permᴰ d (Ascending-Distinct 0 ps up) in
          push_all-reassemble_frame b frame.frame_id qs c idle each distinct
          ∙ ap (λ r. (b, answers qs (reassembled r)))
              (back qs (subst (λ xs. Perm xs qs) same perm)),
    )

-- ===== src/Protocol/Frame/Order.antt =====
-- The order in which the packets of a frame arrive does not matter to `reassemble_frame` of
-- crates/protocol/src/frame.rs.
use native.Mathlib.Nat.{ℕ_set}
use mathlib.Core.List.{Perm, Permᴰ}
use mathlib.Core.Logic.{∥∥₁_elim}
use teamview.Prelude.{
  ℕ, suc, ◌≤◌, ◌<◌, ◌≡◌, ◌≢◌, refl, ap, sym, subst, ◌∙◌, List, [], ◌∷◌, All, arith,
}
use teamview.Prelude.Result.{Result, ok, ◌>>=◌}
use teamview.Protocol.Packet.{MediaPacket, validate}
use teamview.Protocol.Frame.{
  index_of, insert_packet, sort_packets, validate_all, is_empty, reassemble_frame,
  FrameReassemblyError, EncodedFrame,
}

-- The indices ascend strictly from `lo`.
abbrev pub Ascending : ℕ → List MediaPacket → Type 0
Ascending lo [] = Unit {0}
Ascending lo (p ∷ ps) = (lo ≤ index_of p) × Ascending (suc (index_of p)) ps

-- No two packets have the same index.
abbrev pub Distinct : List MediaPacket → Type 0
Distinct [] = Unit {0}
Distinct (p ∷ ps) = All (λ q. index_of q ≢ index_of p) ps × Distinct ps

abbrev pub AllValid : List MediaPacket → Type 0
AllValid = All (λ p. validate p.header ≡ ok tt)

Ascending-ne :
    (lo k : ℕ) (ps : List MediaPacket) → Ascending lo ps → k < lo → All (λ q. index_of q ≢ k) ps
Ascending-ne lo k [] a h = tt
Ascending-ne lo k (p ∷ ps) a h =
    (omega arith, Ascending-ne (suc (index_of p)) k ps a.1 (omega arith))

pub Ascending-Distinct : (lo : ℕ) (ps : List MediaPacket) → Ascending lo ps → Distinct ps
Ascending-Distinct lo [] a = tt
Ascending-Distinct lo (p ∷ ps) a = (
  Ascending-ne (suc (index_of p)) (index_of p) ps a.1 (omega arith),
  Ascending-Distinct (suc (index_of p)) ps a.1,
)

insert_packet-Ascending :
    (p : MediaPacket) (ps : List MediaPacket)
    → Ascending (suc (index_of p)) ps
    → insert_packet p ps ≡ p ∷ ps
unfolding insert_packet
insert_packet-Ascending p [] a = refl
insert_packet-Ascending p (q ∷ qs) a = ground arith

-- Sorting leaves a sorted list as it is.
pub sort_packets-Ascending :
    (lo : ℕ) (ps : List MediaPacket) → Ascending lo ps → sort_packets ps ≡ ps
unfolding sort_packets
sort_packets-Ascending lo [] a = refl
sort_packets-Ascending lo (p ∷ ps) a =
    rw (sort_packets-Ascending (suc (index_of p)) ps a.1) (insert_packet-Ascending p ps a.1)

-- Two packets with different indices can be inserted in either order.
insert_packet_swap :
    (p q : MediaPacket) (ps : List MediaPacket)
    → index_of p ≢ index_of q
    → insert_packet p (insert_packet q ps) ≡ insert_packet q (insert_packet p ps)
unfolding insert_packet
insert_packet_swap p q [] h = ground arith
insert_packet_swap p q (r ∷ rs) h = ground (arith, insert_packet_swap p q rs h)

pub All-Permᴰ :
    (P : MediaPacket → Type 0) {ps qs : List MediaPacket} → Permᴰ ps qs → All P ps → All P qs
All-Permᴰ P Permᴰ.nil a = tt
All-Permᴰ P (Permᴰ.cons e d) a = (subst P e a.0, All-Permᴰ P d a.1)
All-Permᴰ P (Permᴰ.swap e f) a = (subst P f a.1.0, (subst P e a.0, a.1.1))
All-Permᴰ P (Permᴰ.trans d d') a = All-Permᴰ P d' (All-Permᴰ P d a)

pub Distinct-Permᴰ : {ps qs : List MediaPacket} → Permᴰ ps qs → Distinct ps → Distinct qs
Distinct-Permᴰ Permᴰ.nil a = tt
Distinct-Permᴰ (Permᴰ.cons {a = p} {b = q} {l₁ = ps} e d) a = (
  All-Permᴰ (λ r. index_of r ≢ index_of q) d
      (subst (λ x. All (λ r. index_of r ≢ index_of x) ps) e a.0),
  Distinct-Permᴰ d a.1,
)
Distinct-Permᴰ (Permᴰ.swap {a = p} {b = q} {b' = p'} {l = ps} e f) a =
    subst (λ x. Distinct (x ∷ p' ∷ ps)) f
      (subst (λ y. Distinct (q ∷ y ∷ ps)) e (((λ g. a.0.0 (sym g)), a.1.0), (a.0.1, a.1.1)))
Distinct-Permᴰ (Permᴰ.trans d d') a = Distinct-Permᴰ d' (Distinct-Permᴰ d a)

sort_packets-Permᴰ :
    {ps qs : List MediaPacket} → Permᴰ ps qs → Distinct ps → sort_packets ps ≡ sort_packets qs
unfolding sort_packets
sort_packets-Permᴰ Permᴰ.nil a = refl
sort_packets-Permᴰ (Permᴰ.cons {b = q} e d) a =
    rw e (ap (insert_packet q) (sort_packets-Permᴰ d a.1))
sort_packets-Permᴰ (Permᴰ.swap {a = p} {b = q} {l = ps} e f) a =
    rw (← e, ← f) (insert_packet_swap p q (sort_packets ps) (λ g. a.0.0 (sym g)))
sort_packets-Permᴰ (Permᴰ.trans d d') a =
    sort_packets-Permᴰ d a ∙ sort_packets-Permᴰ d' (Distinct-Permᴰ d a)

pub validate_all-AllValid : (ps : List MediaPacket) → AllValid ps → validate_all ps ≡ ok tt
unfolding validate_all
validate_all-AllValid [] v = refl
validate_all-AllValid (p ∷ ps) v = rw (v.0, ◌>>=◌) (validate_all-AllValid ps v.1)

is_empty-Permᴰ : {ps qs : List MediaPacket} → Permᴰ ps qs → is_empty ps ≡ is_empty qs
unfolding is_empty
is_empty-Permᴰ Permᴰ.nil = refl
is_empty-Permᴰ (Permᴰ.cons e d) = refl
is_empty-Permᴰ (Permᴰ.swap e f) = refl
is_empty-Permᴰ (Permᴰ.trans d d') = is_empty-Permᴰ d ∙ is_empty-Permᴰ d'

outcome_set : IsSet (Result FrameReassemblyError EncodedFrame)
outcome_set = hlevel (ℕ_set)

-- Packets with different fragment indices and valid headers give the same outcome of
-- `reassemble_frame`, an error included, in every order.
pub reassemble_frame-perm :
    (ps qs : List MediaPacket)
    → Distinct ps
    → AllValid ps
    → Perm ps qs
    → reassemble_frame qs ≡ reassemble_frame ps
unfolding reassemble_frame
reassemble_frame-perm ps qs distinct valid perm = ∥∥₁_elim perm (outcome_set _ _) λ d. rw (
  is_empty-Permᴰ d,
  validate_all-AllValid ps valid,
  validate_all-AllValid qs (All-Permᴰ (λ p. validate p.header ≡ ok tt) d valid),
  sort_packets-Permᴰ d distinct,
)

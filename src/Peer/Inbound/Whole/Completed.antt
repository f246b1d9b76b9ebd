-- ===== src/Peer/Inbound/Whole/Completed.antt =====
-- peer.c, `case DATA`: what becomes of a chunk when all of its data have come.
use bittorrent_with_congesti.Base.{
  ℕ, ◌+◌, ◌^◌, ◌<◌, ◌≤◌, ◌≡◌, ◌≢◌, refl, sym, ap, ◌∙◌, arith, inl, inr, List, [], ◌∷◌, ◌++◌, length,
  length-append, done,
}
use mathlib.Core.List.{append_assoc, append-nil}
use mathlib.Core.Path.{subst}
use bittorrent_with_congesti.Tracker.Receive.InOrder.{in_order, in_order-next, in_order-other}
use bittorrent_with_congesti.Chunks.{Chunk, Request, chunk_size}
use bittorrent_with_congesti.Chunks.Save.{extended}
use bittorrent_with_congesti.Wire.{max_payload_size}
use bittorrent_with_congesti.Wire.Build.{make_ack}
use bittorrent_with_congesti.Config.{Address}
use bittorrent_with_congesti.Peer.{Externals, Peer, Effect}
use bittorrent_with_congesti.Peer.Inbound.{reply, process_inbound_udp}
use bittorrent_with_congesti.Peer.Inbound.Whole.{
  Datagram, buffer_of, handle_all, Brings, AreSmall, answers, joined, IsFilling, step-save,
  step-discard,
}

-- the rest of the handling, after a datagram that does not fault
handle_all-next :
    (ext : Externals) (p : Peer) (from : Address) (d : Datagram) (ds : List Datagram)
    {p' p'' : Peer} {sent later : List Effect}
    → process_inbound_udp ext p from (buffer_of d) d.now ≡ done (p', sent)
    → handle_all ext p' from ds ≡ done (p'', later)
    → handle_all ext p from (d ∷ ds) ≡ done (p'', sent ++ later)
unfolding handle_all
handle_all-next ext p from d ds e f = rw e (rw f)

handle_all-single :
    (ext : Externals) (p : Peer) (from : Address) (d : Datagram) {p' : Peer} {sent : List Effect}
    → process_inbound_udp ext p from (buffer_of d) d.now ≡ done (p', sent)
    → handle_all ext p from (d ∷ []) ≡ done (p', sent)
unfolding handle_all
handle_all-single ext p from d {p'} {sent} e = rw e (ap (λ s. done (p', s)) (append-nil sent))

abbrev pub AreFull : List (List ℕ) → Type 0
AreFull [] = Unit
AreFull (b ∷ bs) = (0 < length b) × AreFull bs

-- Where the datagrams `ds` have got a chunk when the one that completes it comes.
pub record IsCompleted (ext : Externals) (p : Peer) (from : Address) (i last k : ℕ) (r : Request)
    (c : Chunk) (block : List ℕ) (ds : List Datagram) : Type 0 where
  pub before : Peer
  pub number : ℕ
  pub request : Request
  pub chunk : Chunk
  pub held : List ℕ
  pub final : Datagram
  pub filling : IsFilling before from i number k request chunk held
  pub fits : length final.bytes ≤ max_payload_size
  pub low : final.seq < 2 ^ 32
  pub expected : in_order number final.seq ≡ final.seq
  pub whole : held ++ final.bytes ≡ block
  pub hash : chunk.hash ≡ c.hash
  pub id : chunk.id ≡ c.id
  pub filename : request.filename ≡ r.filename
  pub table : before.has_chunk_table ≡ p.has_chunk_table
  pub rest :
      (p' : Peer) (sent : List Effect)
      → process_inbound_udp ext before from (buffer_of final) final.now
        ≡ done (p', reply from (make_ack final.seq) ++ sent)
      → handle_all ext p from ds ≡ done (p', answers from last ds ++ sent)

-- The datagram before: it is answered, and the chunk is still the same one.
IsCompleted-cons :
    {ext : Externals} {from : Address} {i last k : ℕ} {block : List ℕ} {ds : List Datagram}
    (p p₁ : Peer) (r r₁ : Request) (c c₁ : Chunk) (d : Datagram)
    → process_inbound_udp ext p from (buffer_of d) d.now
      ≡ done (p₁, reply from (make_ack (in_order last d.seq)))
    → IsCompleted ext p₁ from i (in_order last d.seq) k r₁ c₁ block ds
    → c₁.hash ≡ c.hash
    → c₁.id ≡ c.id
    → r₁.filename ≡ r.filename
    → p₁.has_chunk_table ≡ p.has_chunk_table
    → IsCompleted ext p from i last k r c block (d ∷ ds)
IsCompleted-cons {ext} {from} {i} {last} {ds = ds} p p₁ r r₁ c c₁ d e w hash id filename table =
    record {
      before = w.before;
      number = w.number;
      request = w.request;
      chunk = w.chunk;
      held = w.held;
      final = w.final;
      filling = w.filling;
      fits = w.fits;
      low = w.low;
      expected = w.expected;
      whole = w.whole;
      hash = w.hash ∙ hash;
      id = w.id ∙ id;
      filename = w.filename ∙ filename;
      table = w.table ∙ table;
      rest = λ p' sent g. handle_all-next ext p from d ds e (w.rest p' sent g);
    }

module _ (ext : Externals) (from : Address) where
  pub handle_all-IsCompleted :
      (ds : List Datagram) (pieces : List (List ℕ)) (p : Peer) (last : ℕ) {i k : ℕ} {r : Request}
      {c : Chunk} (bytes : List ℕ)
      → IsFilling p from i last k r c bytes
      → AreSmall ds
      → AreFull pieces
      → last + length pieces < 2 ^ 32
      → Brings last pieces ds
      → length bytes < chunk_size
      → length (bytes ++ joined pieces) ≡ chunk_size
      → IsCompleted ext p from i last k r c (bytes ++ joined pieces) ds
  handle_all-IsCompleted [] [] p last bytes f small full low brings short total =
      absurd (omega (arith, length-append bytes []))
  handle_all-IsCompleted [] (b ∷ bs) p last bytes f small full low brings short total =
      absurd brings
  handle_all-IsCompleted (d ∷ ds) [] p last bytes f small full low brings short total =
      absurd brings
  handle_all-IsCompleted (d ∷ ds) (b ∷ bs) p last {r = r} {c = c} bytes f (fits, bound, small) full
        low (inr (old, early, brings)) short total =
      let stay = in_order-other last d.seq (omega arith) early in
      let other : in_order last d.seq ≢ d.seq = λ e. old (sym (sym stay ∙ e)) in
      let (p₁, e, f₁, table) = step-discard ext from p d fits bound f other in
      IsCompleted-cons p p₁ r r c c d (e ∙ ap (λ n. done (p₁, reply from (make_ack n))) (sym stay))
        (handle_all-IsCompleted ds (b ∷ bs) p₁ (in_order last d.seq) bytes f₁ small full
          (omega (arith, stay)) (subst (λ n. Brings n (b ∷ bs) ds) (sym stay) brings) short total)
        refl refl refl table
  handle_all-IsCompleted (d ∷ []) (b ∷ []) p last {r = r} {c = c} bytes f (fits, bound, small) full
        low (inl (e, same, brings)) short total =
      record {
        before = p;
        number = last;
        request = r;
        chunk = c;
        held = bytes;
        final = d;
        filling = f;
        fits = fits;
        low = bound;
        expected = in_order-next last d.seq (omega arith) e ∙ sym e;
        whole = ap (λ x. bytes ++ x) (same ∙ sym (append-nil b));
        hash = refl;
        id = refl;
        filename = refl;
        table = refl;
        rest = λ p' sent g.
            handle_all-single ext p from d g
            ∙ ap (λ n. done (p', reply from (make_ack n) ++ sent))
                (e ∙ sym (in_order-next last d.seq (omega arith) e));
      }
  handle_all-IsCompleted (d ∷ d' ∷ ds) (b ∷ []) p last bytes f small full low
        (inl (e, same, brings)) short total =
      absurd brings
  handle_all-IsCompleted (d ∷ ds) (b ∷ b' ∷ bs) p last {i = i} {k = k} {r = r} {c = c} bytes f
        (fits, bound, small) (first, more) low (inl (e, same, brings)) short total =
      let next = in_order-next last d.seq (omega arith) e in
      let room : length bytes + length d.bytes < chunk_size = omega (
        arith,
        total,
        length-append bytes (b ++ (b' ++ joined bs)),
        length-append b (b' ++ joined bs),
        length-append b' (joined bs),
        ap length same,
        more.0,
      ) in
      let (p₁, r₁, e₁, f₁, filename, table) =
        step-save ext from p d fits bound f (next ∙ sym e) room in
      let joins : (bytes ++ d.bytes) ++ joined (b' ∷ bs) ≡ bytes ++ joined (b ∷ b' ∷ bs) =
        append_assoc bytes d.bytes (joined (b' ∷ bs))
        ∙ ap (λ x. bytes ++ (x ++ joined (b' ∷ bs))) same in
      IsCompleted-cons p p₁ r r₁ c (extended c d.seq bytes d.bytes) d e₁
        (subst
          (λ block.
            IsCompleted ext p₁ from i (in_order last d.seq) k r₁ (extended c d.seq bytes d.bytes)
              block ds)
          joins
          (handle_all-IsCompleted ds (b' ∷ bs) p₁ (in_order last d.seq) (bytes ++ d.bytes) f₁ small
            more (omega (arith, next)) (subst (λ n. Brings n (b' ∷ bs) ds) (sym next) brings)
            (omega (arith, length-append bytes d.bytes)) (ap length joins ∙ total)))
        refl refl filename table

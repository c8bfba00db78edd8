-- ===== src/Buffers/Pieces.antt =====
-- Messages that arrive in pieces: one call of `buff_read` of src/server/buffer.c for each piece.
use open_dax.Base.{
  ℕ, ◌+◌, ◌-◌, ◌≤◌, ◌<◌, ◌≡◌, ◌≢◌, refl, ap, sym, ◌∙◌, false, List, [], ◌∷◌, ◌++◌, Option, some,
  length, Error, ok, err, ◌>>◌, attempt, arith, length-append,
}
use open_dax.Base.Int.{ℤ, pos}
use open_dax.Memory.{Block}
use open_dax.Memory.Pieces.{joined, NotEmpty}
use open_dax.Server.{M}
use open_dax.Store.Notify.{dax_msgmax}
use open_dax.Client.{encoded}
use open_dax.Buffers.{
  BuffNode, Message, Receiver, R, check_command, run_handler, buff_free, buff_read,
}
use open_dax.Buffers.Pending.{content, pending, IsTidy}
use open_dax.Buffers.Freed.{buff_free-Freed}
use open_dax.Buffers.Received.{buff_read-Gains}
use open_dax.Buffers.Framing.{received, deliver-part, deliver-whole}
use mathlib.Core.List.{append_assoc, append-nil}

-- Between the buffers before and after: these bytes of a descriptor wait, and those of the others are
-- as before.
pub record Waits (fd : ℤ) (p : Block) (bs bs' : List BuffNode) : Type 0 where
  pub tidy : IsTidy bs'
  pub some_left : 0 < length bs'
  pub waiting : pending fd bs' ≡ p
  pub others : (g : ℤ) → g ≢ pos 0 → g ≢ fd → pending g bs' ≡ pending g bs

Waits-trans :
    (fd : ℤ) (p q : Block) (xs ys zs : List BuffNode)
    → Waits fd p xs ys
    → Waits fd q ys zs
    → Waits fd q xs zs
Waits-trans fd p q xs ys zs v w = record {
  tidy = w.tidy;
  some_left = w.some_left;
  waiting = w.waiting;
  others = λ g z d. w.others g z d ∙ v.others g z d;
}

module _ (cmd_arr : Message → M (Unit {0})) (unset : Block) (fd : ℤ) where
  -- A call of `buff_read` for each piece; the server goes on after an error.
  unfoldable pub arrive : List Block → R (Unit {0})
  arrive [] r = ok tt r
  arrive (piece ∷ pieces) r =
      (attempt (buff_read cmd_arr unset (λ _. some piece) fd) >> arrive pieces) r

  -- The server goes on from what an error leaves.
  arrive-err :
      (piece : Block) (pieces : List Block) (k : R (Unit {0})) (r r' : Receiver) (e : Error)
      → buff_read cmd_arr unset (λ _. some piece) fd r ≡ err e r'
      → (arrive (piece ∷ pieces) >> k) r ≡ (arrive pieces >> k) r'
  unfolding arrive
  arrive-err piece pieces k r r' e f =
      ap
        (λ o.
          ((λ (s : Receiver). (attempt {A = Unit {0}} (λ (_ : Receiver). o) >> arrive pieces) s)
              >> k)
            r)
        f

module _ (cmd_arr : Message → M (Unit {0})) (unset : Block) (fd : ℤ) (used : fd ≢ pos 0)
    (whole : length unset ≡ dax_msgmax) (command : ℕ) (sent : Block)
    (small : length sent + 8 ≤ dax_msgmax) (valid : check_command command ≡ false) where
  -- Where the bytes that wait and those that `read` returns are the front of a message, four bytes or
  -- more and without the last two, `buff_read` returns ERR_MSG_BAD, and all of them wait.
  pub buff_read-part :
      (read : ℕ → Option Block) (r : Receiver) (bytes rest : Block)
      → 0 < length r.buffers
      → IsTidy r.buffers
      → read (dax_msgmax - length (pending fd r.buffers)) ≡ some bytes
      → 0 < length bytes
      → (pending fd r.buffers ++ bytes) ++ rest ≡ encoded command sent
      → 4 ≤ length (pending fd r.buffers ++ bytes)
      → 2 ≤ length rest
      → (bs : List BuffNode) × (buff_read cmd_arr unset read fd r
          ≡ err Error.msg_bad (record r { buffers = bs }))
        × Waits fd (pending fd r.buffers ++ bytes) r.buffers bs
  buff_read-part read r bytes rest some_buffer t e h is four two =
      let p = pending fd r.buffers in
      let n = ap length is in
      let (bs, node, f, g) =
        buff_read-Gains cmd_arr unset read fd used whole r bytes some_buffer t e h
          (omega (arith, n, length-append (p ++ bytes) rest, length-append p bytes)) in
      let c : content node ≡ p ++ bytes = g.held ∙ g.grown in
      (
        bs,
        f
            ∙ deliver-part cmd_arr fd command sent node rest (record r { buffers = bs })
                g.node_sound (ap (λ q. q ++ rest) c ∙ is) small (omega (arith, ap length c)) two,
        record { tidy = g.tidy; some_left = g.some_left; waiting = g.grown; others = g.others },
      )

  -- Where the bytes that wait and those that `read` returns are a message, or more, `buff_read` is
  -- the handler's run on that message, with nothing of the descriptor left waiting.
  pub buff_read-whole :
      (read : ℕ → Option Block) (r : Receiver) (bytes extra : Block)
      → 0 < length r.buffers
      → IsTidy r.buffers
      → read (dax_msgmax - length (pending fd r.buffers)) ≡ some bytes
      → 0 < length bytes
      → length (pending fd r.buffers) + length bytes ≤ dax_msgmax
      → pending fd r.buffers ++ bytes ≡ encoded command sent ++ extra
      → (bs : List BuffNode) × (buff_read cmd_arr unset read fd r
          ≡ run_handler cmd_arr (received fd command sent) (record r { buffers = bs }))
        × Waits fd [] r.buffers bs
  buff_read-whole read r bytes extra some_buffer t e h fits is =
      let (bs, node, f, g) =
        buff_read-Gains cmd_arr unset read fd used whole r bytes some_buffer t e h fits in
      let freed = buff_free-Freed fd bs used g.tidy in
      (
        buff_free fd bs,
        f
            ∙ deliver-whole cmd_arr fd command sent node extra (record r { buffers = bs })
                g.node_sound (g.held ∙ (g.grown ∙ is)) small valid,
        record {
          tidy = freed.tidy;
          some_left = omega (arith, freed.as_many, g.some_left);
          waiting = freed.nothing;
          others = λ g' z d. freed.others g' z d ∙ g.others g' z d;
        },
      )

  -- The end of a message whose beginning waits.
  arrive-rest :
      (pieces : List Block) (last : Block) (r : Receiver) (p : Block)
      → 0 < length r.buffers
      → IsTidy r.buffers
      → pending fd r.buffers ≡ p
      → NotEmpty pieces
      → 2 ≤ length last
      → p ++ (joined pieces ++ last) ≡ encoded command sent
      → 4 ≤ length p
      → (bs : List BuffNode) × ((arrive cmd_arr unset fd pieces
              >> buff_read cmd_arr unset (λ _. some last) fd)
            r
          ≡ run_handler cmd_arr (received fd command sent) (record r { buffers = bs }))
        × Waits fd [] r.buffers bs
  unfolding arrive joined
  arrive-rest [] last r p some_buffer t e ne two is four =
      buff_read-whole (λ _. some last) r last [] some_buffer t refl (omega arith)
        (omega (arith, ap length e, ap length is, length-append p last))
        (ap (λ q. q ++ last) e ∙ (is ∙ sym (append-nil (encoded command sent))))
  arrive-rest (piece ∷ pieces) last r p some_buffer t e ne two is four =
      let rest = joined pieces ++ last in
      let q = pending fd r.buffers in
      let is' : (q ++ piece) ++ rest ≡ encoded command sent =
        append_assoc q piece rest
        ∙ (ap (λ x. x ++ (piece ++ rest)) e
            ∙ (ap (λ x. p ++ x) (sym (append_assoc piece (joined pieces) last)) ∙ is)) in
      let (bs, f, w) =
        buff_read-part (λ _. some piece) r piece rest some_buffer t refl ne.0 is'
          (omega (arith, ap length e, length-append q piece))
          (omega (arith, length-append (joined pieces) last)) in
      let (bs', f', w') =
        arrive-rest pieces last (record r { buffers = bs }) (q ++ piece) w.some_left w.tidy
          w.waiting ne.1 two is' (omega (arith, ap length e, length-append q piece)) in
      (
        bs',
        arrive-err cmd_arr unset fd piece pieces (buff_read cmd_arr unset (λ _. some last) fd) r
              (record r { buffers = bs }) Error.msg_bad f
            ∙ f',
        Waits-trans fd (q ++ piece) [] r.buffers bs bs' w w',
      )

  -- A message that arrives in pieces, the first of four bytes or more and the last of two or more, is
  -- handled once, when its last piece is there, and leaves nothing of the descriptor waiting, and what
  -- the others wait with as it was.
  pub arrive-handled :
      (first : Block) (pieces : List Block) (last : Block) (r : Receiver)
      → 0 < length r.buffers
      → IsTidy r.buffers
      → pending fd r.buffers ≡ []
      → 4 ≤ length first
      → NotEmpty pieces
      → 2 ≤ length last
      → first ++ (joined pieces ++ last) ≡ encoded command sent
      → (bs : List BuffNode) × ((arrive cmd_arr unset fd (first ∷ pieces)
              >> buff_read cmd_arr unset (λ _. some last) fd)
            r
          ≡ run_handler cmd_arr (received fd command sent) (record r { buffers = bs }))
        × Waits fd [] r.buffers bs
  unfolding arrive
  arrive-handled first pieces last r some_buffer t e four ne two is =
      let rest = joined pieces ++ last in
      let is' : (pending fd r.buffers ++ first) ++ rest ≡ encoded command sent =
        ap (λ q. (q ++ first) ++ rest) e ∙ is in
      let n = length-append (pending fd r.buffers) first in
      let (bs, f, w) =
        buff_read-part (λ _. some first) r first rest some_buffer t refl (omega arith) is'
          (omega (arith, n)) (omega (arith, length-append (joined pieces) last)) in
      let (bs', f', w') =
        arrive-rest pieces last (record r { buffers = bs }) (pending fd r.buffers ++ first)
          w.some_left w.tidy w.waiting ne two is' (omega (arith, n)) in
      (
        bs',
        arrive-err cmd_arr unset fd first pieces (buff_read cmd_arr unset (λ _. some last) fd) r
              (record r { buffers = bs }) Error.msg_bad f
            ∙ f',
        Waits-trans fd (pending fd r.buffers ++ first) [] r.buffers bs bs' w w',
      )

-- ===== src/Handlers/Served.antt =====
-- A write and a read of a tag as requests: `msg_tag_write` and `msg_tag_read` of src/server/message.c.
use open_dax.Base.{
  ℕ, ◌-◌, ◌^◌, ◌≤◌, ◌<◌, ◌≡◌, refl, ap, sym, ◌∙◌, not, ◌&&◌, false, List, [], ◌∷◌, ◌++◌, some,
  length, ltb, ok, err, fault, ◌>>◌, >>-of, Outcome, Result, fail, crash, ret, run, arith,
}
use open_dax.Base.Int.{ℤ, pos}
use open_dax.Memory.{Block}
use open_dax.Event.{Floats}
use open_dax.Server.{Output, sent, Tag, Server, has, tag_at, emit, attr_virtual, attr_ovr_set}
use open_dax.Store.{unchecked_tag, stored_read, tag_read, tag_write}
use open_dax.Store.Hooks.{memory_of}
use open_dax.Store.Written.{stored_write-Committed}
use open_dax.Store.Roundtrip.{
  rewritten, stored_read-rewritten, tag_at-Committed, tag_write-stored, tag_read-stored,
}
use open_dax.Tagbase.{word}
use open_dax.Tagbase.Lookup.{is_tag_readonly, is_tag_owned}
use open_dax.Mapping.{check_maps, map_check}
use open_dax.Client.{Response, response, reply, message_send}
use open_dax.Handlers.{
  answer, settle, read_sized, check_written, write_allowed, reply_written, msg_tag_read,
  msg_tag_write, msg_tag_read_command, msg_tag_write_command,
}
use open_dax.Handlers.Fields.{
  write_request, read_request, signed-small, first_field, second_field, third_field,
}

map_check-unmapped :
    (floats : Floats) (i offset size : ℕ) (t : Tag) (s : Server)
    → tag_at s (pos i) ≡ some t
    → t.mappings ≡ []
    → map_check floats (pos i) offset size s ≡ ok tt s
unfolding map_check check_maps
map_check-unmapped floats i offset size t s at none_mapped =
    ap (λ o. unchecked_tag o (λ (t : Tag). check_maps floats t.mappings offset size) s) at
    ∙ ap (λ ms. check_maps floats ms offset size s) none_mapped

-- After the write nothing is left to copy to other tags.
check_written-unmapped :
    (floats : Floats) (i offset size : ℕ) (t : Tag) (s : Server)
    → tag_at s (pos i) ≡ some t
    → t.mappings ≡ []
    → check_written floats (pos i) (pos offset) size s ≡ ok tt s
unfolding check_written
check_written-unmapped floats i offset size t s at none_mapped =
    ap
      (λ (o : Outcome Server (Unit {0})). elim o [
        | ok a s' ↦ ok tt s'
        | err e s' ↦ ok tt s'
        | fault ↦ fault
      ])
      (map_check-unmapped floats i offset size t s at none_mapped)

module _ (stack : Block) (floats : Floats) (fd : ℤ) (i offset : ℕ) (bytes : Block) (t : Tag)
    (s s' : Server) (at : tag_at s (pos i) ≡ some t) (small : i < 2 ^ 31)
    (offset_small : offset < 2 ^ 31)
    (w : tag_write floats fd (pos i) (pos offset) bytes s ≡ ok tt s') where
  write_allowed-ok :
      (is_tag_readonly t && not (is_tag_owned fd t)) ≡ false
      → write_allowed floats fd (pos i) (pos offset) bytes s ≡ ok tt s'
  unfolding write_allowed
  write_allowed-ok allowed = rw at (rw allowed w)

  msg_tag_write-ok :
      (t' : Tag)
      → (is_tag_readonly t && not (is_tag_owned fd t)) ≡ false
      → tag_at s' (pos i) ≡ some t'
      → t'.mappings ≡ []
      → msg_tag_write stack floats (write_request fd i offset bytes) s
        ≡ ok tt (emit s' (sent fd (reply msg_tag_write_command response []) ∷ []))
  unfolding msg_tag_write reply_written settle answer message_send memory_of
  msg_tag_write-ok t' allowed at' none_mapped =
      let body = word offset ++ bytes in
      let n : ltb (length (word i ++ body)) 8 ≡ false = ground arith in
      rw (first_field stack fd i offset msg_tag_write_command body (omega arith)) (
        rw (second_field stack fd i offset msg_tag_write_command bytes (omega arith)) (
          rw n (
            rw (signed-small i small) (
              rw (signed-small offset offset_small) (
                rw (write_allowed-ok allowed) (
                  rw
                    (
                      check_written-unmapped floats i offset (length (word i ++ body) - 8) t' s' at'
                          none_mapped,
                      ◌>>◌,
                    )
                    refl))))))

  -- What is read then, with the reply to the write sent.
  read_back :
      (fd' : ℤ) (out : List Output)
      → has t attr_virtual ≡ false
      → has t attr_ovr_set ≡ false
      → (t' : Tag) × (tag_at s' (pos i) ≡ some t')
        × (t'.mappings ≡ t.mappings)
        × (tag_read fd' (pos i) (pos offset) (length bytes) (emit s' out) ≡ ok bytes (emit s' out))
  read_back fd' out v o =
      let w' = sym (tag_write-stored floats fd i (pos offset) bytes t s at v) ∙ w in
      let (old, new, checked, put, c) =
        stored_write-Committed floats i fd (pos offset) bytes t s s' w' in
      let t' = rewritten t new c.looked_at in
      let at' : tag_at s' (pos i) ≡ some t' = tag_at-Committed s i t new s' c at in
      (
        t',
        at',
        refl,
        tag_read-stored fd' i (pos offset) (length bytes) t' (emit s' out) at' v
            ∙ ap (λ dts. run (stored_read dts t' (pos offset) (length bytes)) (emit s' out))
                c.datatypes
            ∙ ap (λ r. run r (emit s' out))
                (stored_read-rewritten s.datatypes t (pos offset) bytes old new c.looked_at o
                  checked put),
      )

message_send-small :
    (fd : ℤ) (command : ℕ) (payload : Block) (kind : Response)
    → length payload ≤ 4088
    → message_send fd command payload kind ≡ ret (sent fd (reply command kind payload))
unfolding message_send
message_send-small fd command payload kind h =
    let n : ltb 4088 (length payload) ≡ false = ground arith in rw n refl

answer-sent :
    (fd : ℤ) (command : ℕ) (kind : Response) (payload : Block) (s : Server)
    → length payload ≤ 4088
    → answer fd command kind payload s ≡ ok tt (emit s (sent fd (reply command kind payload) ∷ []))
unfolding answer
answer-sent fd command kind payload s h =
    ap
      (λ (o : Result Output). elim o as (λ _. Outcome Server (Unit {0})) [
        | ret out ↦ ok tt (emit s (out ∷ []))
        | fail e ↦ ok tt s
        | crash ↦ fault
      ])
      (message_send-small fd command payload kind h)

msg_tag_read-ok :
    (stack : Block) (fd : ℤ) (i offset : ℕ) (bytes : Block) (s : Server)
    → i < 2 ^ 31
    → offset < 2 ^ 31
    → length bytes ≤ 4088
    → tag_read fd (pos i) (pos offset) (length bytes) s ≡ ok bytes s
    → msg_tag_read stack (read_request fd i offset (length bytes)) s
      ≡ ok tt (emit s (sent fd (reply msg_tag_read_command response bytes) ∷ []))
unfolding msg_tag_read read_sized settle answer message_send
msg_tag_read-ok stack fd i offset bytes s small offset_small fits r =
    let n : ltb 4088 (length bytes) ≡ false = ground arith in
    rw
      (first_field stack fd i offset msg_tag_read_command (word offset ++ word (length bytes))
        (omega arith))
      (rw (second_field stack fd i offset msg_tag_read_command (word (length bytes)) (omega arith))
        (rw (third_field stack fd i offset msg_tag_read_command (length bytes) (omega arith)) (
          rw (signed-small i small) (
            rw (signed-small offset offset_small) (
              rw (signed-small (length bytes) (omega arith))
                (rw r (rw n (answer-sent fd msg_tag_read_command response bytes s fits))))))))

-- A client writes bytes to a tag that it may write to, neither virtual nor overridden, with no mappings
-- from it, and the write goes through: the reply is empty. Then another client that reads there, as
-- many bytes and at most 4088, gets a reply with those bytes.
pub msg_tag_read-msg_tag_write :
    (stack : Block) (floats : Floats) (fd fd' : ℤ) (i offset : ℕ) (bytes : Block) (t : Tag)
    (s s' : Server)
    → tag_at s (pos i) ≡ some t
    → i < 2 ^ 31
    → offset < 2 ^ 31
    → length bytes ≤ 4088
    → has t attr_virtual ≡ false
    → has t attr_ovr_set ≡ false
    → (is_tag_readonly t && not (is_tag_owned fd t)) ≡ false
    → t.mappings ≡ []
    → tag_write floats fd (pos i) (pos offset) bytes s ≡ ok tt s'
    → (msg_tag_write stack floats (write_request fd i offset bytes)
          >> msg_tag_read stack (read_request fd' i offset (length bytes)))
        s
      ≡ ok tt (
          emit
            (emit s' (sent fd (reply msg_tag_write_command response []) ∷ []))
            (sent fd' (reply msg_tag_read_command response bytes) ∷ []))
msg_tag_read-msg_tag_write stack floats fd fd' i offset bytes t s s' at small offset_small fits v o
      allowed unmapped w =
    let out = sent fd (reply msg_tag_write_command response []) ∷ [] in
    let (t', at', same, r) =
      read_back stack floats fd i offset bytes t s s' at small offset_small w fd' out v o in
    >>-of (msg_tag_write stack floats (write_request fd i offset bytes))
      (msg_tag_read stack (read_request fd' i offset (length bytes))) s (emit s' out)
      (msg_tag_write-ok stack floats fd i offset bytes t s s' at small offset_small w t' allowed at'
        (same ∙ unmapped))
    ∙ msg_tag_read-ok stack fd' i offset bytes (emit s' out) small offset_small fits r

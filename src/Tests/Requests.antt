-- ===== src/Tests/Requests.antt =====
-- The theorem on requests at a server with one tag that is heard by nobody.
use open_dax.Base.{◌≡◌, refl, [], ◌∷◌, replicate, ok, ◌>>◌, arith}
use open_dax.Base.Int.{pos}
use open_dax.Memory.{splice_int}
use open_dax.Cdt.{type_size, type_size_fuel}
use open_dax.Types.{is_base}
use open_dax.Server.{Tag, Server, block, sent, emit}
use open_dax.Store.{tag_write}
use open_dax.Tagbase.Lookup.{is_tag_readonly, is_tag_owned}
use open_dax.Client.{response, reply}
use open_dax.Handlers.{msg_tag_read, msg_tag_write, msg_tag_read_command, msg_tag_write_command}
use open_dax.Handlers.Served.{msg_tag_read-msg_tag_write}
use open_dax.Handlers.Fields.{write_request, read_request}
use open_dax.Tests.Samples.{tag_ab, one_tag, no_floats}

abbrev quiet_tag : Tag
quiet_tag = record tag_ab { attr = 0; events = [] }

abbrev quiet_server : Server
quiet_server = record one_tag { db = quiet_tag ∷ [] }

abbrev after : Server
after = record one_tag { db = record quiet_tag { tag_data = block (1 ∷ 7 ∷ 8 ∷ 4 ∷ []) } ∷ [] }

written : tag_write no_floats (pos 5) (pos 0) (pos 1) (7 ∷ 8 ∷ []) quiet_server ≡ ok tt after
unfolding tag_write type_size type_size_fuel is_base splice_int
written = refl

msg_tag_read-msg_tag_write_example :
    (msg_tag_write (replicate 4088 0) no_floats (write_request (pos 5) 0 1 (7 ∷ 8 ∷ []))
        >> msg_tag_read (replicate 4088 0) (read_request (pos 6) 0 1 2))
      quiet_server
    ≡ ok tt (
        emit
          (emit after (sent (pos 5) (reply msg_tag_write_command response []) ∷ []))
          (sent (pos 6) (reply msg_tag_read_command response (7 ∷ 8 ∷ [])) ∷ []))
unfolding is_tag_readonly is_tag_owned
msg_tag_read-msg_tag_write_example =
    msg_tag_read-msg_tag_write (replicate 4088 0) no_floats (pos 5) (pos 6) 0 1 (7 ∷ 8 ∷ [])
      quiet_tag quiet_server after refl (omega arith) (omega arith) (omega arith) refl refl refl
      refl written

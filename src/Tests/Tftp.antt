-- ===== src/Tests/Tftp.antt =====
-- Tests of chapter6/tftp.go and of `Serve`.

use networking_in_go.Prelude.{
  [], ◌∷◌, ◌++◌, ◌≡◌, refl, arith, none, some, codes, equal, Bytes, List, false,
}
use networking_in_go.Go.Binary.{put_u16, get_u16}
use networking_in_go.Go.Text.{read_string, trim_right, to_lower}
use networking_in_go.Tftp.ReadReq
use networking_in_go.Tftp.ReadReq.{ReadReq, request_mode}
use networking_in_go.Tftp.ReadReq.Accepts.{IsRequest, ReadReq-unmarshal_sound}
use networking_in_go.Tftp.Data
use networking_in_go.Tftp.Data.{Data, Data-unmarshal-marshal, Data-unmarshal_sound}
use networking_in_go.Tftp.Err.{Err}
use networking_in_go.Tftp.Packet.{op_rrq, invalid_rrq, only_binary}
use networking_in_go.Tftp.Handler.{read_into, is_nil}
use networking_in_go.Tftp.Server.{Server, Incoming, datagram_from, read_failed, serve}
use networking_in_go.Tftp.Server.Requests.{serve_unterminated}

abbrev old : ReadReq
old = record { filename = codes "x"; mode = codes "y" }

abbrev request : Bytes
request = 0 ∷ 1 ∷ (codes "a.txt" ++ 0 ∷ (codes "OcTet" ++ 0 ∷ []))

abbrev wanted : ReadReq
wanted = record { filename = codes "a.txt"; mode = codes "OcTet" }

reads_request : ReadReq.unmarshal old request ≡ (wanted, none)
unfolding ReadReq.unmarshal get_u16 read_string trim_right to_lower equal
reads_request = refl

refuses_netascii :
    ReadReq.unmarshal old (0 ∷ 1 ∷ (codes "a" ++ 0 ∷ (codes "netascii" ++ 0 ∷ [])))
    ≡ (record { filename = codes "a"; mode = codes "netascii" }, some only_binary)
unfolding ReadReq.unmarshal get_u16 read_string trim_right to_lower equal
refuses_netascii = refl

wanted-IsRequest : IsRequest request (codes "a.txt") (codes "OcTet") []
unfolding put_u16 to_lower
wanted-IsRequest = record { spells = refl; name = ground arith; mode = ground arith; octets = refl }

abbrev plain : ReadReq
plain = record { filename = codes "b"; mode = [] }

ReadReq-unmarshal_sound_example : (f m rest : Bytes) × IsRequest request f m rest
unfolding ReadReq.unmarshal get_u16 read_string trim_right to_lower equal
ReadReq-unmarshal_sound_example = ReadReq-unmarshal_sound old request refl

abbrev sending : Data
sending = record { block = 65535; payload = codes "abc" }

abbrev receiving : Data
receiving = record { block = 9; payload = [] }

-- The block number comes round to 0.
block_wraps : (Data.marshal sending).1 ≡ 0 ∷ 3 ∷ 0 ∷ 0 ∷ codes "abc"
unfolding Data.marshal put_u16
block_wraps = refl

abbrev not_found : Err
not_found = record { error = 2; message = codes "gone" }

abbrev server : Server
server = record { payload = some (codes "file"); retries = 0; timeout = 0 }

abbrev client_addr : Bytes
client_addr = codes "10.0.0.1:99"

abbrev input : List Incoming
input = datagram_from client_addr (1 ∷ []) ∷ datagram_from client_addr request ∷ read_failed ∷ []

serves_request : (serve false server input).1 ≡ (client_addr, wanted) ∷ []
unfolding serve ReadReq.unmarshal get_u16 read_string trim_right to_lower equal read_into is_nil
serves_request = refl

serve_unterminated_example :
    let d = put_u16 op_rrq ++ (codes "a.txt" ++ 0 ∷ codes "octet") in
    ((ReadReq.unmarshal old d).1 ≡ some invalid_rrq)
    × ((serve false server (datagram_from client_addr d ∷ input)).1
        ≡ (client_addr, record { filename = codes "a.txt"; mode = codes "octet" })
          ∷ (serve false server input).1)
unfolding to_lower put_u16
serve_unterminated_example =
    serve_unterminated server old client_addr (codes "a.txt") (codes "octet") input refl
      (ground arith) (ground arith) refl (omega arith)

-- ===== src/Tests/OfFetch.antt =====
-- The theorem on `Get` of the peer-to-peer prototype, on a server and the peer that answers it.
use go_infra_lab.Common.{
  ℕ, ◌≡◌, refl, arith, String, none, some, List, [], ◌∷◌, ◌++◌, length, eq_refl,
}
use go_infra_lab.GoMap
use go_infra_lab.GoMap.{GoMap}
use go_infra_lab.GoMap.Laws.{get-put}
use go_infra_lab.Action.{ok, err, other}
use go_infra_lab.Encryption.{xor_key_stream}
use go_infra_lab.Objects.Contract.{stream_of}
use go_infra_lab.Store.{FileSystem, path_of, has, open_file_for_writing}
use go_infra_lab.Store.Laws.{IsFileSystem, file_of}
use go_infra_lab.Peer.{TcpPeer}
use go_infra_lab.Peer.Server.{FileServer, Outside}
use go_infra_lab.Peer.Server.Streams.{le_bytes}
use go_infra_lab.Peer.Server.Handlers.{get_key}
use go_infra_lab.Peer.Fetching.{get_key_lem}
use package.go_infra_lab.Tests.Paths.{dir_of_shorter}
use package.go_infra_lab.Tests.OfStore.{Files, file_map, data_store}
use package.go_infra_lab.Tests.OfPeer.{wide, outside, peer, conn, server, iv, file, swaps_back}

-- A file system without a limit on the size of a file.
abbrev roomy : FileSystem Files
roomy = record file_map {
  stat = λ p f. elim (GoMap.get p f) [ none ↦ some (other "no such file") | some _ ↦ none ];
  copy_to = λ p bytes e f. elim e [
    | none ↦ (ok (length bytes), GoMap.put p bytes f)
    | some x ↦ (err x, f)
  ];
  open_file = λ p f. (
    elim (GoMap.get p f) [ none ↦ err (other "no such file") | some bytes ↦ ok (file_of bytes) ],
    f,
  );
  file_size = λ p f. elim (GoMap.get p f) [
    | none ↦ err (other "no such file")
    | some bytes ↦ ok (length bytes)
  ];
}

roomy_copies :
    (p q : String) (bytes : List ℕ) (n : ℕ) (f : Files)
    → (roomy.copy_to p bytes none f).0 ≡ ok n
    → n ≡ length bytes
roomy_copies p q bytes n f h = ground (arith, h)

roomy_opens :
    (p : String) (bytes : List ℕ) (f : Files)
    → GoMap.get p f ≡ some bytes
    → (roomy.open_file p f ≡ (ok (file_of bytes), f)) × (roomy.file_size p f ≡ ok (length bytes))
roomy_opens p bytes f there = (ground (arith, there), ground (arith, there))

abbrev roomy-IsFileSystem : IsFileSystem roomy
roomy-IsFileSystem = record {
  contents = λ q f. GoMap.get q f;
  contents-mkdir_all = λ p q f. refl;
  contents-create = λ p q f h. get-put p q [] f;
  contents-copy_to = λ p q bytes n f empty h. (roomy_copies p q bytes n f h, get-put p q bytes f);
  opens = roomy_opens;
  dir_shorter = dir_of_shorter;
}

abbrev far : Outside Files ℕ
far = record outside { fs = roomy }

far_appends :
    (path : String) (old bytes : List ℕ) (f : Files)
    → GoMap.get path f ≡ some old
    → (((far.file_writer path).write bytes f).0 ≡ (length bytes, none))
      × (GoMap.get path ((far.file_writer path).write bytes f).1 ≡ some (old ++ bytes))
far_appends path old bytes f there =
    ground (arith, there, get-put path path (old ++ bytes) f, eq_refl path)

abbrev cipher_text : List ℕ
cipher_text = iv ++ xor_key_stream (wide.xor_byte 7 iv) 0 file

-- While `Get` sleeps, the peer sends the file in two pieces behind the marker.
abbrev wait : GoMap TcpPeer → GoMap TcpPeer
wait peers = ("b", peer (conn "b" (le_bytes 8 19 ∷ cipher_text ∷ []) []) 1) ∷ []

abbrev asking : FileServer Files ℕ
asking = server "s" (("b", peer (conn "b" [] []) 0) ∷ [])

get_key_lem_example :
    ((get_key far wait "k" asking).0 ≡ ok (stream_of file))
    × (GoMap.get (path_of roomy data_store "s" "k") (get_key far wait "k" asking).1.files
        ≡ some file)
unfolding GoMap.get
get_key_lem_example =
    get_key_lem far roomy-IsFileSystem far_appends "k" file iv asking wait "b" 0 [] []
      (peer (conn "b" (le_bytes 8 19 ∷ cipher_text ∷ []) []) 1) refl refl swaps_back
      (unfold has in refl) refl (refl, tt) refl refl (unfold xor_key_stream in omega arith)
      (unfold xor_key_stream le_bytes in refl) (unfold open_file_for_writing in refl)

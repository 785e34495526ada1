-- ===== src/Tests/OfCommand.antt =====
-- The theorem on the commands, on a manager over the small cluster.
use Prim.Native.String.{◌++◌}
use go_infra_lab.Common.{
  ℕ, ◌≡◌, refl, arith, String, none, List, [], ◌∷◌, length, show_uint64, str_lt,
}
use go_infra_lab.Common.Strings.{has_suffix, trim_right_slashes, trim_prefix, contains}
use go_infra_lab.GoMap.{has, put}
use go_infra_lab.Sorting.{sort_slice}
use go_infra_lab.Action.{ok, err, other, continue}
use go_infra_lab.Metadata.{healthy_nodes, begin_file_version, record_replicas}
use go_infra_lab.Objects.Contract.{stream_of}
use go_infra_lab.Coordinator.{prepare_write, commit_write}
use go_infra_lab.Replication.{plan, plan_sorted, tasks_for_file}
use go_infra_lab.Staging.{stage_reader, read_loop, absorb, finish_stage}
use go_infra_lab.Service.Files.{put_file}
use go_infra_lab.Service.Storage.{write_chunks, write_loop, write_chunk}
use go_infra_lab.Http.{file_key_from_path, write_api_json}
use go_infra_lab.Http.Client.{Transport}
use go_infra_lab.Http.Keys.{file_url}
use go_infra_lab.Http.Manager.{Extras, serve_manager, handle_file, serve_key, handle_put}
use go_infra_lab.Service.Putting.{Manager}
use go_infra_lab.Command.{
  LocalFiles, Formats, World, run_put, run_get, save_body, print, request, check_status,
}
use go_infra_lab.Command.Network.{Rendering, deliver_manager}
use go_infra_lab.Command.Rounds.{run_get-run_put}
use package.go_infra_lab.Tests.{report}
use package.go_infra_lab.Tests.OfHttp.{unescape, base, urls_of, plain-IsUrls, is_plain}
use package.go_infra_lab.Tests.OfPut.{
  Kept, kept, contents, kept-IsObjectStore, sum, temp, no_seek_error, working, service, bytes,
}

-- A machine with one file, whatever its name.
abbrev machine : LocalFiles (List ℕ)
machine = record {
  open_file = λ path file. ok (stream_of file);
  create = λ path file. (ok tt, []);
  copy_to = λ path src file. (ok (length src.bytes), src.bytes);
  close_error = λ path file. none;
}

-- The metadata that `put` prints do not matter here.
abbrev formats : Formats String
formats = record {
  decode_file = λ body. ok report;
  decode_any = λ body. err (other "invalid JSON");
  marshal_indent = λ v. ok v;
  marshal_addr = λ addr. ok [];
  trimmed_text = λ text. "";
}

abbrev render : Rendering
render = record {
  text_bytes = λ t. [];
  json_bytes = λ v. [];
  status_line = λ status. show_uint64 status;
}

abbrev extras : Extras Kept
extras = record { unescape = unescape; decode_addr = λ body. ok base; set_node = none }

abbrev world : World (List ℕ) (Manager Kept)
world = record { files = bytes; network = service; printed = [] }

abbrev net : Transport (Manager Kept)
net = deliver_manager working extras render (trim_right_slashes "http://n1:9101")

put_done :
    (run_put machine formats (urls_of "a.txt") net "http://n1:9101" ("a.txt" ∷ "in" ∷ []) world).0
    ≡ ok tt
unfolding run_put request check_status deliver_manager serve_manager handle_file file_key_from_path
    serve_key handle_put contains has_suffix trim_prefix trim_right_slashes file_url put_file
    stage_reader read_loop prepare_write plan healthy_nodes sort_slice str_lt plan_sorted
    write_chunks write_loop write_chunk finish_stage absorb commit_write tasks_for_file
    begin_file_version has record_replicas put write_api_json
put_done = refl

run_get-run_put_example :
    let w =
      (run_put machine formats
        (urls_of "a.txt")
        net
        "http://n1:9101"
        ("a.txt" ∷ "in" ∷ [])
        world).1 in
    run_get machine formats (urls_of "a.txt") net "http://n1:9101" ("a.txt" ∷ "out" ∷ []) w
    ≡ continue (save_body machine formats (urls_of "a.txt") net "out" (stream_of bytes) w) (λ n.
      print machine formats
        (urls_of "a.txt")
        net
        ("fetched key=" ++ ("a.txt" ++ (" bytes=" ++ show_uint64 n))))
run_get-run_put_example =
    run_get-run_put kept contents kept-IsObjectStore sum temp no_seek_error (λ n. refl) refl
      (λ file piece. refl) machine formats extras render (urls_of "a.txt") "http://n1:9101" "a.txt"
      "in" "out" bytes world (unfold trim_right_slashes in plain-IsUrls) is_plain
      (unfold has_suffix in refl) (omega arith) refl put_done

-- ===== src/Tests/Sessions.antt =====
-- A session whose file is read before it was written.
use cultivate.Common.{◌≡◌, refl, ap, [], ◌∷◌, bytes_eq, bytes_key, panic, pos}
use cultivate.HashMap
use cultivate.Proto
use cultivate.Daemon.{Daemon}
use cultivate.Fs.Content.{read}
use cultivate.Fs.Content.Laws.{read-unwritten}
use cultivate.Service.{read_file, write_file}
use cultivate.Service.Calls.{Call, run}
use cultivate.Session.{fs_of, read_request, write_request}
use cultivate.Session.Lost.{read_request-lost}
use cultivate.Tests.Samples.{sample_hash, clock}
use cultivate.Tests.Daemons.{sample_prost, willing, home, sample_daemon}
use cultivate.Tests.Serving.{noted, note, read_handle, write_handle, runs}

abbrev with_note : Daemon
with_note = record sample_daemon {
  store = noted.store;
  mounts = HashMap.insert home noted.mount HashMap.empty;
}

note_panics : (read 3 read_handle (pos 0) 10 (fs_of with_note noted.mount 1)).0 ≡ panic
note_panics =
    ap (λ r. r.0)
      (read-unwritten 3 read_handle 0 10 note (fs_of with_note noted.mount 1) runs.5 refl runs.8)

abbrev small : Proto.File
small = record { «data» = b'x' ∷ [] }

abbrev no_file : Proto.FileId
no_file = record { file_id = [] }

-- The file is written in the meantime, in vain.
read_request-lost_example :
    (t : Daemon) × (t
      ≡ run sample_hash sample_prost willing
          (Call.write_file small ∷ [])
          (read_request home 3 read_handle (pos 0) 10 with_note).1)
    × ((read_request home 3 read_handle (pos 0) 10 with_note).0 ≡ panic)
    × (read_file no_file t ≡ (panic, t))
    × (write_file sample_hash sample_prost small t ≡ (panic, t))
    × (read_request home 2 read_handle (pos 1) 5 t ≡ (panic, t))
    × (write_request sample_hash clock home 2 write_handle (pos 1) [] t ≡ (panic, t))
unfolding bytes_eq
read_request-lost_example =
    read_request-lost sample_hash sample_prost willing clock home 3 read_handle 0 10 noted.mount
      (Call.write_file small ∷ []) with_note no_file small home 2 read_handle write_handle 1 5 []
      refl runs.8 note_panics runs.8 runs.7

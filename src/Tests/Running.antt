-- ===== src/Tests/Running.antt =====
-- An installer that runs on a disk. The operations are numbers.
use linkerd2_proxy_init.Base.{
  ℕ, Bytes, codes, Bool, false, same, ◌==◌, Option, none, some, List, [], ◌∷◌, Result, ok, err,
  if◌then◌else◌,
}
use linkerd2_proxy_init.Task.{Done}
use linkerd2_proxy_init.Cni.Json.{Json}
use linkerd2_proxy_init.Cni.Os.{Os, DirEntry}
use linkerd2_proxy_init.Cni.Installer.{Machine, InstallError, Act, token_filename, new_installer}
use linkerd2_proxy_init.Cni.Watch.{Event, Watch, handle_event, System}
use linkerd2_proxy_init.Cni.Run.{initial_events, token_event, entry_event, start, begun}
use linkerd2_proxy_init.Tests.Disk.{Disk, DiskError, disk}
use linkerd2_proxy_init.Tests.Installer.{getenv, unmarshal, marshal, hash_encode}

abbrev pub entry : Bytes → DirEntry
entry name = record { name = name; is_dir = false; is_regular = false }

abbrev pub entries : List DirEntry
entries = entry (codes "1.conf") ∷ entry (codes "2.conf") ∷ []

abbrev pub os : Os Disk DiskError
os = disk getenv entries

-- Every file has the text, and the directory of the binaries is there.
abbrev pub with_text : Bytes → Machine Disk
with_text text = record {
  world = record {
    files = λ n. if same n (codes "x/x") then some [] else some text;
    target = [];
    source = [];
  };
  installer = new_installer getenv;
}

abbrev pub has : ℕ → ℕ → Bool
has op wanted = op == wanted

abbrev pub new_watcher : Disk → Option DiskError × Disk
new_watcher w = (none, w)

abbrev pub add : Bytes → Disk → Option DiskError × Disk
add path w = (none, w)

abbrev pub undecoded : Bytes → Option Json
undecoded text = none

module _ (decode : Bytes → Option Json) (m : Machine Disk) where
  abbrev pub started :
      Result (InstallError DiskError) (List (Bytes × Watch ℕ Disk DiskError)) × Machine Disk
  started = start os 0 1 2 decode marshal hash_encode has new_watcher add m

  abbrev pub index_of :
      Result (InstallError DiskError) (List (Bytes × Watch ℕ Disk DiskError))
      → List (Bytes × Watch ℕ Disk DiskError)
  index_of (ok index) = index
  index_of (err e) = []

  abbrev pub handler : Event ℕ → Act Disk DiskError Done
  handler = handle_event has (index_of started.0)

  abbrev pub first : System ℕ (InstallError DiskError) (Machine Disk)
  first = begun os 0 1 2 decode marshal hash_encode has new_watcher add started.1

abbrev pub initial : Machine Disk → Result (InstallError DiskError) (List (Event ℕ))
initial = initial_events os 0 1 2

abbrev pub announced : Event ℕ
announced = token_event os 0 1 2 token_filename

abbrev pub conf_event : Bytes → Event ℕ
conf_event name = entry_event os 0 1 2 (entry name)

abbrev pub ready : Machine Disk
ready = with_text (codes "t")

-- Behind the events for the token and the two configurations.
abbrev pub all_done : Machine Disk
all_done =
    let act = handler unmarshal ready in
    let m₁ = (act announced (started unmarshal ready).1).1 in
    let m₂ = (act (conf_event (codes "1.conf")) m₁).1 in (act (conf_event (codes "2.conf")) m₂).1

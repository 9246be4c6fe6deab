-- ===== src/Clients/Tests.antt =====
-- The theorems on disk_rand.c, disk_cli.c and disk_connect at small inputs.
use cs4440proj3_final.Prelude.{◌≡◌, refl, some, List, Bytes, [], ◌∷◌, ◌++◌, replicate, arith}
use cs4440proj3_final.Text.{newline, request}
use cs4440proj3_final.Fs.Exec.{Runs}
use cs4440proj3_final.Fs.Link.{Link}
use cs4440proj3_final.Fs.Link.Laws.{at_rest, Holds, exchange-sent, update}
use cs4440proj3_final.Fs.Link.Connecting.{connected, disk_connect, disk_connect-Holds}
use cs4440proj3_final.Fs.Tests.Server.{blank_disk, blank_sectors, blank-Holds}
use cs4440proj3_final.Clients.Rand.{Rand}
use cs4440proj3_final.Clients.Rand.Steady.{Steady}
use cs4440proj3_final.Clients.Cli.{Cli, leaves, overrun, cli_round, disk_cli}
use cs4440proj3_final.Net.{conn_of}
use cs4440proj3_final.Fs.Commands.{code}
use cs4440proj3_final.Fs.Files.Sessions.{Request, create, read, write}
use cs4440proj3_final.Fs.Serve.Sessions.{texts, all_of}
use cs4440proj3_final.Fs.Tests.Server.{notes, contents}
use cs4440proj3_final.Fs.Tests.Files.{notes-IsName}
use cs4440proj3_final.Fs.Tests.Client.{notes-IsWord}
use cs4440proj3_final.Clients.FsCli.{FsCli, fs_cli}
use cs4440proj3_final.Clients.FsCli.Rounds.{at_terminal, went}
use cs4440proj3_final.Clients.FsCli.Forwarding.{Fitting, nothing, fitting, fs_cli-forwards}
use cs4440proj3_final.Clients.Cli.Digits.{read_hex}
use cs4440proj3_final.Clients.Cli.Ends.{cli_round-overrun}
use cs4440proj3_final.Clients.Cli.Session.{disk_cli-shows}

disk_connect-Holds_example :
    Runs (disk_connect 62) (connected blank_disk []) tt (Holds 10 blank_sectors)
disk_connect-Holds_example = disk_connect-Holds 62 blank-Holds.disk (omega arith)

abbrev terminal : Cli
terminal = record { link = at_rest blank_disk; stdin = []; stdout = []; piece = 20 }

disk_cli-shows_example :
    (l : Link) × (digits : Bytes) × (disk_cli (record terminal {
      stdin = request b'W' (1 ∷ 3 ∷ 2 ∷ []) ++ (b'h' ∷ b'i' ∷ (request b'R' (1 ∷ 3 ∷ []) ++ []));
    })
      ≡ some (
        leaves,
        record terminal {
          link = l;
          stdin = [];
          stdout = (b'1' ∷ newline ∷ []) ++ (49 ∷ 32 ∷ (digits ++ (32 ∷ 46 ∷ 46 ∷ 46 ∷ 10 ∷ [])));
        },
      ))
    × (read_hex digits ≡ some (b'h' ∷ b'i' ∷ replicate 30 0))
    × Holds 10 (update blank_sectors 8 (b'h' ∷ b'i' ∷ replicate 126 0)) l
disk_cli-shows_example =
    disk_cli-shows terminal blank-Holds 1 3 (omega arith) (omega arith) (b'h' ∷ b'i' ∷ [])
      (omega arith) (omega arith, (omega arith, tt))

cli_round-overrun_example :
    (cli_round
      (record terminal { stdin = request b'W' (1 ∷ 1 ∷ 200 ∷ []) ++ replicate 200 b'x' })).0
    ≡ overrun
cli_round-overrun_example =
    cli_round-overrun terminal 1 1 200 (replicate 200 b'x') (omega arith) (omega arith)
      (omega arith) (omega arith) (omega arith)
      (exchange-sent blank_disk (request b'W' (1 ∷ 1 ∷ 200 ∷ [])))

-- The client of the filesystem server: three requests, and their replies.
abbrev typed : List Request
typed = create notes ∷ write notes contents ∷ read notes ∷ []

abbrev replies : List Bytes
replies = code b'0' ∷ code b'0' ∷ (b'0' ∷ b' ' ∷ b'2' ∷ b' ' ∷ b'h' ∷ b'i' ∷ newline ∷ []) ∷ []

abbrev fs_terminal : FsCli
fs_terminal = record { conn = conn_of []; arriving = []; stdin = []; stdout = [] }

replies-Fitting : Fitting typed replies
replies-Fitting =
    fitting (omega arith) (omega arith) (refl, (refl, tt))
      (fitting (omega arith) (omega arith) (refl, (refl, tt))
        (fitting (omega arith) (omega arith)
          (refl, (refl, (refl, (refl, (refl, (refl, (refl, tt))))))) nothing))

fs_cli-forwards_example :
    fs_cli (at_terminal (texts typed) replies fs_terminal)
    ≡ some (at_terminal [] [] (went (texts typed) (all_of replies) fs_terminal))
fs_cli-forwards_example =
    fs_cli-forwards typed replies fs_terminal refl
      (
        (notes-IsName, notes-IsWord),
        (((notes-IsName, omega arith), notes-IsWord), ((notes-IsName, notes-IsWord), tt)),
      )
      replies-Fitting

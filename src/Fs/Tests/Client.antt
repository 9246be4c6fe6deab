-- ===== src/Fs/Tests/Client.antt =====
-- client_main of fs_server.c on the small disk.
use cs4440proj3_final.Prelude.{refl, []}
use cs4440proj3_final.Net.{conn_of}
use cs4440proj3_final.Fs.Serve.{Client}
use cs4440proj3_final.Text.Scanning.{IsWord}
use cs4440proj3_final.Fs.Tests.Files.{fresh}
use cs4440proj3_final.Fs.Tests.Server.{notes}

pub notes-IsWord : IsWord notes
notes-IsWord = (refl, (refl, (refl, (refl, (refl, tt)))))

-- A client that has just connected to the server of a formatted disk.
abbrev fresh_client : Client
fresh_client = record { conn = conn_of []; fs = fresh.0 }

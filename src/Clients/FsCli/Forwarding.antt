-- ===== src/Clients/FsCli/Forwarding.antt =====
-- fs_cli.c forwards what is typed and shows what comes back.
use mathlib.Core.List.{append_assoc, append-nil}
use mathlib.Core.Path.{ap₂}
use cs4440proj3_final.Prelude.{
  ℕ, zero, suc, ◌≤◌, ◌<◌, ◌≡◌, refl, ap, sym, ◌∙◌, Bool, true, Option, none, some, List, [], ◌∷◌,
  Bytes, arith, All, length, length-append, if◌then◌else◌,
}
use cs4440proj3_final.Text.Strings.{NoNul}
use cs4440proj3_final.Net.{line_of}
use cs4440proj3_final.Fs.Files.Sessions.{Request, IsValid}
use cs4440proj3_final.Fs.Serve.Requests.{text, IsWritten}
use cs4440proj3_final.Fs.Serve.Sessions.{texts, all_of, text-nonempty}
use cs4440proj3_final.Clients.FsCli.{FsCli, fs_cli_round, fs_cli_loop, fs_cli}
use cs4440proj3_final.Clients.FsCli.Rounds.{limit, at_terminal, went, fs_cli_round_lem}

-- Replies that arrive in one piece, fit and have no NUL.
pub data Fitting : List Request → List Bytes → Type 0 where
  nothing : Fitting [] []
  fitting :
      {r : Request} {rs : List Request} {b : Bytes} {bs : List Bytes}
      → 0 < length b
      → length b ≤ limit r
      → NoNul b
      → Fitting rs bs
      → Fitting (r ∷ rs) (b ∷ bs)

fs_cli_loop-more :
    (fuel : ℕ) (s s' : FsCli)
    → fs_cli_round s ≡ (true, s')
    → fs_cli_loop (suc fuel) s ≡ fs_cli_loop fuel s'
unfolding fs_cli_loop
fs_cli_loop-more fuel s s' e =
    ap (λ (p : Bool × FsCli). if p.0 then fs_cli_loop fuel p.1 else some p.1) e

fs_cli_loop-ends :
    (fuel : ℕ) (s : FsCli)
    → fs_cli_loop (suc fuel) (at_terminal [] [] s) ≡ some (at_terminal [] [] s)
unfolding fs_cli_loop fs_cli_round line_of
fs_cli_loop-ends fuel s = refl

-- the client at the end, with this sent and this printed
abbrev ended : FsCli → Bytes → Bytes → Option FsCli
ended s sent shown =
    some (record s {
      conn = record s.conn { output = sent };
      arriving = [];
      stdin = [];
      stdout = shown;
    })

fs_cli_loop-Fitting :
    (rs : List Request) (replies : List Bytes) (s : FsCli) (fuel : ℕ)
    → s.conn.room ≡ none
    → All (λ r. IsValid r × IsWritten r) rs
    → Fitting rs replies
    → length (texts rs) < fuel
    → fs_cli_loop fuel (at_terminal (texts rs) replies s)
      ≡ some (at_terminal [] [] (went (texts rs) (all_of replies) s))
unfolding texts all_of
fs_cli_loop-Fitting rs replies s zero room valid f less = absurd (omega arith)
fs_cli_loop-Fitting [] [] s (suc fuel) room valid nothing less =
    fs_cli_loop-ends fuel s
    ∙ ap₂ (ended s) (sym (append-nil s.conn.output)) (sym (append-nil s.stdout))
fs_cli_loop-Fitting [] (b ∷ bs) s (suc fuel) room valid f less = elim f [ ]
fs_cli_loop-Fitting (r ∷ rs) [] s (suc fuel) room valid f less = elim f [ ]
fs_cli_loop-Fitting (r ∷ rs) (b ∷ bs) s (suc fuel) room valid (fitting ne fits clean f) less =
    fs_cli_loop-more fuel (at_terminal (texts (r ∷ rs)) (b ∷ bs) s)
      (at_terminal (texts rs) bs (went (text r) b s))
      (fs_cli_round_lem (texts rs) b bs s room ne clean r valid.0.0 valid.0.1 fits)
    ∙ fs_cli_loop-Fitting rs bs (went (text r) b s) fuel room valid.1 f
        (omega (arith, length-append (text r) (texts rs), text-nonempty r))
    ∙ ap₂ (ended s) (append_assoc s.conn.output (text r) (texts rs))
        (append_assoc s.stdout b (all_of bs))

-- A user types the texts of requests with valid names that are single words, and ends stdin; the
-- connection takes what is sent, and each reply arrives in one piece that fits the buffer for it and
-- has no NUL. Then fs_cli ends, has sent exactly what was typed, and has printed exactly the replies.
pub fs_cli-forwards :
    (rs : List Request) (replies : List Bytes) (s : FsCli)
    → s.conn.room ≡ none
    → All (λ r. IsValid r × IsWritten r) rs
    → Fitting rs replies
    → fs_cli (at_terminal (texts rs) replies s)
      ≡ some (at_terminal [] [] (went (texts rs) (all_of replies) s))
unfolding fs_cli
fs_cli-forwards rs replies s room valid f =
    fs_cli_loop-Fitting rs replies s (suc (length (texts rs))) room valid f (omega arith)

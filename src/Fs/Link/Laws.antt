-- ===== src/Fs/Link/Laws.antt =====
-- A connection on which nothing breaks, as an array of sectors, and one exchange on it.
use mathlib.Core.List.{append-nil}
use mathlib.Core.Bool.{false≢true}
use native.Mathlib.Decide.{ℕ_discrete}
use native.Mathlib.Nat.{div-lt_iff_lt-mul, div-add-mod}
use mathlib.Core.Path.{ap₂, subst}
use cs4440proj3_final.Prelude.{
  ℕ, zero, suc, ◌+◌, ◌*◌, ◌/◌, ◌%◌, ◌^◌, ◌≤◌, ◌<◌, ◌≡◌, ◌≢◌, refl, ap, sym, ◌∙◌, ◌⊎◌, inl, inr,
  true, [], ◌∷◌, ◌++◌, Bytes, length, take, drop, ◌==◌, if◌then◌else◌, arith, length-append,
}
use cs4440proj3_final.Text.{newline}
use cs4440proj3_final.Disk.{Server}
use cs4440proj3_final.Disk.Bounds.{IsSound}
use cs4440proj3_final.Disk.Blocks.{at, block}
use cs4440proj3_final.Disk.Serve.{serve_round}
use cs4440proj3_final.Fs.Exec.{ok}
use cs4440proj3_final.Fs.Link.{Link, blksz, has_newline, serve_ready, deliver, exchange, receive}

-- The connection as disk_connect leaves it, with nothing under way.
abbrev pub at_rest : Server → Link
at_rest srv = record {
  server = srv;
  pending = [];
  replies = [];
  alive = true;
  fates = [];
  cyl = srv.cyl;
  sec = srv.sec;
}

-- The `n` sectors of the disk behind the connection are those of `g`.
pub record Disk (n : ℕ) (g : ℕ → Bytes) (srv : Server) : Type 0 where
  pub sound : IsSound srv
  pub size : srv.cyl * srv.sec ≡ n
  pub small : n < 2 ^ 32
  pub sectors : (i : ℕ) → i < n → block srv (i / srv.sec) (i % srv.sec) ≡ g i

pub record Holds (n : ℕ) (g : ℕ → Bytes) (l : Link) : Type 0 where
  pub disk : Disk n g l.server
  pub rest : l ≡ at_rest l.server

-- The array after a write.
abbrev pub update {ℓ} : {A : Type ℓ} → (ℕ → A) → ℕ → A → ℕ → A
update g i b j = if j == i then b else g j

pub update_self : {A : Type 0} (g : ℕ → A) (i : ℕ) (b : A) → update g i b i ≡ b
update_self g i b = ground arith

pub update_ne : {A : Type 0} (g : ℕ → A) (i : ℕ) (b : A) (j : ℕ) → j ≢ i → update g i b j ≡ g j
update_ne g i b j ne = ground arith

pub has_newline-append : (line rest : Bytes) → has_newline (line ++ (newline ∷ rest)) ≡ true
has_newline-append [] rest = refl
has_newline-append (c ∷ line) rest = ground (arith, has_newline-append line rest)

pub has_newline-more : (s rest : Bytes) → has_newline s ≡ true → has_newline (s ++ rest) ≡ true
has_newline-more [] rest h = absurd (false≢true h)
has_newline-more (c ∷ s) rest h = ground (arith, has_newline-more s rest)

serve_ready_rest :
    (fuel : ℕ) (srv : Server) (out : Bytes)
    → serve_ready fuel (at srv [] out) ≡ (true, at srv [] out)
unfolding serve_ready
serve_ready_rest zero srv out = refl
serve_ready_rest (suc fuel) srv out = refl

-- a round that uses up the bytes that have arrived
serve_ready_once :
    (bytes out out' : Bytes) (srv srv' : Server)
    → has_newline bytes ≡ true
    → serve_round (at srv bytes out) ≡ (true, at srv' [] out')
    → serve_ready (length bytes) (at srv bytes out) ≡ (true, at srv' [] out')
unfolding serve_ready
serve_ready_once [] out out' srv srv' h e = absurd (false≢true h)
serve_ready_once (c ∷ bytes) out out' srv srv' h e =
    rw (h, e) (serve_ready_rest (length bytes) srv' out')

-- the exchange of a request and its reply, with any geometry
pub exchange_any :
    (srv : Server) (bytes out : Bytes) (srv' : Server) (c s : ℕ)
    → has_newline bytes ≡ true
    → serve_round (at srv bytes []) ≡ (true, at srv' [] out)
    → exchange bytes (record (at_rest srv) { cyl = c; sec = s })
      ≡ (ok tt, record (at_rest srv) { server = srv'; replies = out; cyl = c; sec = s })
unfolding exchange deliver
exchange_any srv bytes out srv' c s h e = rw (deliver, serve_ready_once bytes [] out srv srv' h e)

pub exchange_once :
    (srv : Server) (bytes out : Bytes) (srv' : Server)
    → has_newline bytes ≡ true
    → serve_round (at srv bytes []) ≡ (true, at srv' [] out)
    → exchange bytes (at_rest srv) ≡ (ok tt, record (at_rest srv) { server = srv'; replies = out })
exchange_once srv bytes out srv' h e = exchange_any srv bytes out srv' srv.cyl srv.sec h e

-- A connection on which nothing breaks takes what is sent.
pub exchange-sent : (srv : Server) (bytes : Bytes) → (exchange bytes (at_rest srv)).0 ≡ ok tt
unfolding exchange
exchange-sent srv bytes = refl

pub le_mul : (c sec : ℕ) → 0 < sec → c ≤ c * sec
le_mul c sec h = grind arith

pub le_mul_left : (c sec : ℕ) → 0 < c → sec ≤ c * sec
le_mul_left c sec h = grind arith

-- coordinates of a sector
module _ (cyl sec : ℕ) (positive : 0 < sec) where
  pub div-lt : (i : ℕ) → i < cyl * sec → i / sec < cyl
  div-lt i h = (div-lt_iff_lt-mul positive).1 h

  pub apart : (i j : ℕ) → i ≢ j → (i / sec ≢ j / sec) ⊎ (i % sec ≢ j % sec)
  apart i j ne = elim (ℕ_discrete (i / sec) (j / sec)) [
    | no q ↦ inl q
    | yes q ↦
        inr (λ r.
          ne (sym (div-add-mod i sec) ∙ ap₂ (λ (a b : ℕ). sec * a + b) q r ∙ div-add-mod j sec))
  ]

pub take-length-append :
    (a b : Bytes) → (take (length a) (a ++ b) ≡ a) × (drop (length a) (a ++ b) ≡ b)
take-length-append [] b = (refl, refl)
take-length-append (x ∷ a) b =
    (ap (λ l. x ∷ l) (take-length-append a b).0, (take-length-append a b).1)

pub receive_lem :
    (l : Link) (a b : Bytes)
    → receive (length a) (record l { replies = a ++ b }) ≡ (ok a, record l { replies = b })
unfolding receive
receive_lem l a b =
    rw ((take-length-append a b).0, (take-length-append a b).1) (ground (arith, length-append a b))

pub receive_block :
    (l : Link) (b : Bytes)
    → length b ≡ 128
    → receive blksz (record l { replies = b }) ≡ (ok b, record l { replies = [] })
receive_block l b size =
    subst (λ k. receive k (record l { replies = b }) ≡ (ok b, record l { replies = [] })) size
      (rw append-nil at (receive_lem l b []))

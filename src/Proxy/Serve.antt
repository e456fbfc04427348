-- ===== src/Proxy/Serve.antt =====
-- What a worker and a "/GetJob" send: `serve_request`, `handle_get_job` and `send_error_response`
-- of p6/starter-code/proxyserver.c. The two sockets enter as the outcomes of their calls.
use mathlib.Core.Option
use cs537projects.Base.{
  ℕ, ◌-◌, ◌≡◌, refl, ap, ◌∙◌, Bool, ◌||◌, Option, none, some, List, [], ◌∷◌, ◌++◌, arith, ◌==◌,
  length, take, drop, if◌then◌else◌, length-append, ◌≢◌,
}
use cs537projects.Base.Int.{ℤ, pos, ltb_ℤ, pos_part}
use cs537projects.CString.{c_string, strstr, NoByte, strstr-append}
use cs537projects.Proxy.Delay.{extract_delay_time}

-- What `serve_request` does, in order; a `respond` is a whole `send_error_response`.
data Action : Type 0 where
  respond : ℕ → Action
  sleep : ℕ → Action
  to_fileserver : List ℕ → Action
  to_client : List ℕ → Action

-- `chunks` are the results of `recv` above 0, each with the outcome of passing it on to the client.
record Upstream : Type 0 where
  connected : Bool
  sent : Bool
  chunks : List (List ℕ × Bool)

abbrev bad_gateway : ℕ
bad_gateway = 502

-- The `while (1)`: until the fileserver closes, or the client has gone.
unfoldable forward : List (List ℕ × Bool) → List Action
forward [] = []
forward ((chunk, ok) ∷ rest) = let more = forward rest in if ok then to_client chunk ∷ more else []

delay_actions : ℤ → List Action
delay_actions d = if ltb_ℤ (pos 0) d then sleep (pos_part d) ∷ [] else []

send_actions : Upstream → List ℕ → ℕ → List Action
send_actions u buffer bytes_read =
    if u.sent
    then to_fileserver (take bytes_read buffer) ∷ forward u.chunks
    else respond bad_gateway ∷ []

-- `serve_request` from `connect` on (`socket` returns a socket); `none` where `atoi` of the delay is
-- undefined.
unfoldable serve_request : Upstream → Bool → List ℕ → ℕ → Option (List Action)
unfolding delay_actions send_actions
serve_request u malloc_ok buffer bytes_read =
    if u.connected
    then Option.map (λ d. delay_actions d ++ send_actions u buffer bytes_read)
        (extract_delay_time malloc_ok (c_string buffer))
    else some (respond bad_gateway ∷ [])

is_line_end : ℕ → Bool
is_line_end c = (c == 13) || (c == 10)

unfoldable skip_ends : List ℕ → List ℕ
unfolding is_line_end
skip_ends [] = []
skip_ends (c ∷ s) = if is_line_end c then skip_ends s else c ∷ s

unfoldable until_end : List ℕ → List ℕ
unfolding is_line_end
until_end [] = []
until_end (c ∷ s) = let rest = until_end s in if is_line_end c then [] else c ∷ rest

-- `s1` and `s2` of `handle_get_job`: a missing space is a null pointer that is followed (`none`).
unfoldable path_between : List ℕ → Option (List ℕ)
path_between token = elim (strstr token (32 ∷ [])) [
  | none ↦ none
  | some s1 ↦ elim (strstr (drop 1 s1) (32 ∷ [])) [
    | none ↦ none
    | some s2 ↦ some (take (length s1 - length s2 - 1) (drop 1 s1))
  ]
]

-- The path that `handle_get_job` sends back with status 200: that of the first `strtok` token.
unfoldable handle_get_job : List ℕ → Option (List ℕ)
unfolding skip_ends until_end path_between
handle_get_job buffer = path_between (until_end (skip_ends buffer))

abbrev OneLine : List ℕ → Type 0
OneLine [] = Unit {0}
OneLine (c ∷ s) = (c ≢ 13) × (c ≢ 10) × OneLine s

until_end-append : (s rest : List ℕ) → OneLine s → until_end (s ++ (13 ∷ rest)) ≡ s
unfolding until_end
until_end-append [] rest h = refl
until_end-append (c ∷ s) rest h = ground (arith, until_end-append s rest h.2)

skip_ends_lem : (c : ℕ) (s : List ℕ) → c ≢ 13 → c ≢ 10 → skip_ends (c ∷ s) ≡ c ∷ s
unfolding skip_ends
skip_ends_lem c s p q = ground arith

take-append_left : (xs ys : List ℕ) → take (length xs) (xs ++ ys) ≡ xs
take-append_left [] ys = refl
take-append_left (x ∷ xs) ys = ap (◌∷◌ x) (take-append_left xs ys)

path_between_lem :
    (method path version : List ℕ)
    → NoByte 32 method
    → NoByte 32 path
    → path_between (method ++ (32 ∷ (path ++ (32 ∷ version)))) ≡ some path
unfolding path_between
path_between_lem method path version m p =
    rw (strstr-append 32 [] method (path ++ (32 ∷ version)) m, path_between)
      (rw (strstr-append 32 [] path version p) (
        ap some (
          ap (λ n. take n (path ++ (32 ∷ version)))
            (omega (arith, length-append {0} path (32 ∷ version)))
          ∙ take-append_left path (32 ∷ version))))

-- For a request line "METHOD PATH VERSION" ended by CR, with a method of at least one character and
-- no spaces inside the method or the path, a "/GetJob" is answered with that path, whatever follows.
handle_get_job-path :
    (c : ℕ) (method path version rest : List ℕ)
    → OneLine ((c ∷ method) ++ (32 ∷ (path ++ (32 ∷ version))))
    → NoByte 32 (c ∷ method)
    → NoByte 32 path
    → handle_get_job (((c ∷ method) ++ (32 ∷ (path ++ (32 ∷ version)))) ++ (13 ∷ rest)) ≡ some path
unfolding handle_get_job
handle_get_job-path c method path version rest line m p =
    ap (λ s. path_between (until_end s))
      (skip_ends_lem c (method ++ (32 ∷ (path ++ (32 ∷ version))) ++ (13 ∷ rest)) line.0 line.1)
    ∙ ap path_between (until_end-append ((c ∷ method) ++ (32 ∷ (path ++ (32 ∷ version)))) rest line)
    ∙ path_between_lem (c ∷ method) path version m p

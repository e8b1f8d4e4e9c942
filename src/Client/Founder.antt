-- ===== src/Client/Founder.antt =====
-- src/client/founder.cpp: the command line of the client, and the exchange of a command and its reply
-- with a daemon.
use distft.Prelude.{
  ℕ, ◌+◌, ◌-◌, ◌*◌, ◌%◌, ◌^◌, Bool, true, false, not, ◌&&◌, ◌||◌, List, [], ◌∷◌, Option, none, some,
  ite, if◌then◌else◌, length, leb, ltb, ◌==◌,
}
use distft.Key.{Text, Text-discrete}
use distft.Client.Control.{ascii}

-- What `main` goes on to do, or the exit with a message, or the exception of `std::stoi`. An unknown
-- command exits with `SUCCESS`.
pub data Action : Type 0 where
  usage : Text → Action
  helps interacts setup_fails not_found unknown throws : Action
  starts : List Text → Action
  exits lists : ℕ → Action
  stores loads : ℕ → ℕ → List Text → Action

unfoldable pub same_text : Text → Text → Bool
same_text s t = ite (Text-discrete s t) true false

-- The loop over the arguments for a flag in its two spellings.
unfoldable pub has_flag : Text → Text → List Text → Bool
has_flag short long [] = false
has_flag short long (arg ∷ args) =
    same_text arg short || same_text arg long || has_flag short long args

unfoldable pub is_digit : ℕ → Bool
is_digit c = leb b'0' c && leb c b'9'

unfoldable pub all_digits : Text → Bool
all_digits [] = true
all_digits (c ∷ cs) = is_digit c && all_digits cs

-- `std::regex_match(ep, match, std::regex("(.*):(\\d+)"))`: the dot matches no end of a line.
unfoldable pub valid_endpoint : Text → Bool
unfolding all_digits is_digit
valid_endpoint [] = false
valid_endpoint (c ∷ cs) =
    (c == b':' && ltb 0 (length cs) && all_digits cs)
    || (not (c == b'\n' || c == b'\r') && valid_endpoint cs)

unfoldable pub all_endpoints : List Text → Bool
all_endpoints [] = true
all_endpoints (ep ∷ eps) = valid_endpoint ep && all_endpoints eps

-- `std::stoi` on digits: `none` is its exception, at an empty text or out of the range of `int`.
unfoldable pub digits_value : ℕ → Text → ℕ
digits_value n [] = n
digits_value n (c ∷ cs) = digits_value (n * 10 + (c - b'0')) cs

unfoldable pub stoi : Text → Option ℕ
stoi [] = none
stoi (c ∷ cs) = let n = digits_value 0 (c ∷ cs) in if ltb n (2 ^ 31) then some n else none

-- Which sessions have a command pipe.
module _ (running : ℕ → Bool) where
  -- The session that an argument names: the test on its digits, `std::stoi` and the test on the pipe.
  unfoldable pub with_session : Text → (ℕ → Action) → Action
  unfolding stoi
  with_session arg k =
      if not (all_digits arg)
      then not_found
      else (elim (stoi arg) [ none ↦ throws | some id ↦ (if running id then k id else not_found) ])

  -- The commands, after the flags and the setup. The counts are `static_cast<char>(argc - 3)`.
  unfoldable pub command : Text → List Text → Action
  command cmd args =
      if same_text cmd (ascii "start")
      then (if ltb (length args) 2
          then usage (ascii "Provide at least 2 accessible endpoints for the founder client.")
          else if all_endpoints args
          then starts args
          else usage (ascii "Endpoint invalid: must have the form <address>:<port>"))
      else if same_text cmd (ascii "exit")
      then (elim args [
        | [] ↦ usage (ascii "Provide session id for a running founder client.")
        | id ∷ rest ↦ with_session id exits
      ])
      else if same_text cmd (ascii "list")
      then (elim args [
        | [] ↦ usage (ascii "Provide session id for a running founder client.")
        | id ∷ rest ↦ with_session id lists
      ])
      else if same_text cmd (ascii "store")
      then (elim args [
        | [] ↦
            usage (ascii "Provide session id for a running founder client and at least one file.")
        | id ∷ files ↦
            (if ltb (length files) 1
              then usage
                  (ascii "Provide session id for a running founder client and at least one file.")
              else with_session id (λ n. stores n (length files % 256) files))
      ])
      else if same_text cmd (ascii "load")
      then (elim args [
        | [] ↦ usage (
            ascii
              "Provide session id for a running founder client, at least one file to download, and a file to write to.")
        | id ∷ files ↦
            (if ltb (length files) 2
              then usage (
                  ascii
                    "Provide session id for a running founder client, at least one file to download, and a file to write to.")
              else with_session id (λ n. loads n (length files % 256) files))
      ])
      else unknown

  -- `main`, on the arguments behind the program's name, and whether `setup_client` succeeds.
  unfoldable pub main : Bool → List Text → Action
  unfolding command with_session has_flag same_text
  main setup [] = usage (ascii "Provide arg(s). Enter `--help` for all commands.")
  main setup (cmd ∷ args) =
      if has_flag (ascii "-h") (ascii "--help") (cmd ∷ args)
      then helps
      else if has_flag (ascii "-i") (ascii "--interactive") (cmd ∷ args)
      then interacts
      else if setup
      then command cmd args
      else setup_fails

-- ===== src/Py/Effect.antt =====
-- Statements with effects that may raise. The world outside is a record of answers, each of which
-- may depend on everything done so far, so a theorem for every `Env` holds for every behaviour of
-- the servers, files and hosts. What was done before an exception stays done.
pub mod Rules
pub mod Returns
pub mod Ends
use rke2_lab.Base.{ℕ, String, Bool, true, false, Option, none, some, List, [], ◌∷◌}
use rke2_lab.Base.Dict.{Dict}
use rke2_lab.Resources.{Resource}
use rke2_lab.Py.Value.{Value}
use rke2_lab.Py.Result.{runtime_error, import_error, os_error}
use rke2_lab.Base.Int.{ℤ}
pub use rke2_lab.Py.Result.{Exception, Result, ok, err}

-- A text read from the network or a file, as `json.loads` sees it.
pub data Body : Type 0 where
  empty : Body
  json : Value → Body
  not_json : String → Body

-- `urllib.request.Request`, or a request of `requests`; a form is urlencoded on the wire, and a
-- payload is sent as JSON.
pub record HttpRequest : Type 0 where
  pub method : String
  pub url : String
  pub headers : Dict String
  pub form : Option (Dict String)
  pub payload : Option Value

-- The outcome of `urlopen` and `read`: a response, an `HTTPError`, or no answer at all.
pub data Reply : Type 0 where
  response : ℕ → Body → Reply
  http_error : ℕ → Body → Reply
  unreachable : String → Reply

-- What `child.expect` found.
pub data Expected : Type 0 where
  prompt timeout eof : Expected

-- A `pexpect` session: the index and `before` of each `expect`, and the exit status after `close`.
-- The second is reached only behind a password prompt, and waits for no prompt.
pub record Session : Type 0 where
  pub first : Expected
  pub before_first : String
  pub second_timed_out : Bool
  pub before_second : String
  pub exitstatus : Option ℕ

pub data File : Type 0 where
  missing : File
  -- opening it or `json.loads` raised an exception with this text
  unreadable : (why : String) → File
  content : Value → File

-- A request of a `requests` session: its query or its form, and whether redirects are followed.
pub record Visit : Type 0 where
  pub method : String
  pub url : String
  pub fields : Dict String
  pub follow : Bool

pub record Page : Type 0 where
  pub status_code : ℕ
  pub url : String
  -- the header `Location`
  pub location : Option String
  pub text : String

-- The arguments of a local process, the variables that are set for it, and what it reads.
pub record Command : Type 0 where
  pub argv : List String
  pub environ : Dict String
  pub stdin : Option String

pub data Event : Type 0 where
  sent : HttpRequest → Event
  ssh_ran : (host command : String) → Event
  wrote : (path : String) → Dict String → Event
  printed : String → Event
  slept : ℕ → Event
  -- a Pulumi resource of this name
  registered : String → Resource → Event
  -- a local process that was waited for, and one that was only started
  ran : Command → Event
  started : Command → Event
  -- a random token of this many bytes
  drew : ℕ → Event
  -- a request of a `requests` session
  visited : Visit → Event

-- A finished process.
pub record Completed : Type 0 where
  pub returncode : ℤ
  pub stdout : String
  pub stderr : String

-- The newest event comes first.
abbrev pub History : Type 0
History = List Event

pub record Env : Type 0 where
  pub http : History → HttpRequest → Reply
  pub ssh : History → (host command : String) → Session
  -- whether `import pexpect` succeeds
  pub has_pexpect : Bool
  -- `open(path).read()`; `none` is an OSError
  pub read_text : History → String → Option String
  -- a JSON file
  pub read_json : History → String → File
  -- `time.time()`, in whole seconds
  pub clock : History → ℕ
  -- `subprocess.run`; `none` where there is no such program
  pub process : History → Command → Option Completed
  -- `shutil.which`
  pub which : String → Option String
  -- a session's requests, with its cookies; `none` is a RequestException
  pub browse : History → Visit → Option Page
  -- `json.loads`; `none` is a ValueError
  pub decode : String → Option Value
  -- `html.unescape`, `urljoin(base, url)` and `parse_qs(urlparse(url).query)`
  pub unescape : String → String
  pub urljoin : (base url : String) → String
  pub query : String → Dict (List String)
  -- `secrets.token_urlsafe(n)`
  pub token : History → ℕ → String
  -- `os.path.exists`
  pub exists : History → String → Bool
  -- `str(value)`, which messages show
  pub show_value : Value → String
  -- `urllib.parse.urlparse(url).netloc`
  pub netloc : String → String
  -- `repr` of a text, and of a list of pairs
  pub repr : String → String
  pub show_pairs : List (Value × Value) → String
  -- `shlex.quote`
  pub quote : String → String
  -- `os.getenv(name)`
  pub getenv : String → Option String
  -- `os.path.expanduser`
  pub expanduser : String → String
  -- `base64.b64encode(text.encode()).decode()`
  pub base64 : String → String
  -- `base64.urlsafe_b64decode(text)` as a text; `none` is a ValueError
  pub unbase64 : String → Option String

abbrev pub Io {ℓ} : Type ℓ → Type ℓ
Io A = History → Result A × History

module _ {ℓ} {A : Type ℓ} where
  unfoldable pub pure : A → Io A
  pure a h = (ok a, h)

  unfoldable pub raise : Exception → Io A
  raise e h = (err e, h)

  unfoldable pub lift : Result A → Io A
  lift r h = (r, h)

  unfoldable pub try_except : Io A → (Exception → Io A) → Io A
  try_except m handle h = let (r, h') = m h in elim r [ ok a ↦ (ok a, h') | err e ↦ handle e h' ]

  abbrev pub after_final : Result (Unit {0}) → Result A → Result A
  after_final (ok _) r = r
  after_final (err e) r = err e

  -- `try: ... finally: ...`
  unfoldable pub try_finally : Io A → Io (Unit {0}) → Io A
  try_finally m final h = let (r, h1) = m h in let (s, h2) = final h1 in (after_final s r, h2)

-- `except RuntimeError as exc:` and `except ImportError:`; other exceptions go on.
abbrev pub except_runtime {ℓ} : {A : Type ℓ} → (String → Io A) → Exception → Io A
except_runtime k (runtime_error text) = k text
except_runtime k e = raise e

abbrev pub except_import {ℓ} : {A : Type ℓ} → Io A → Exception → Io A
except_import k import_error = k
except_import k e = raise e

-- `open(path).read()`
unfoldable pub read_file : Env → String → Io (Option String)
read_file env path h = (ok (env.read_text h path), h)

-- `time.time()`
unfoldable pub now : Env → Io ℕ
now env h = (ok (env.clock h), h)

abbrev completed : Option Completed → Result Completed
completed none = err (os_error "No such file or directory")
completed (some done) = ok done

-- `subprocess.run`
unfoldable pub run_process : Env → Command → Io Completed
run_process env command h = (completed (env.process h command), ran command ∷ h)

abbrev launched : Option Completed → Result (Unit {0})
launched none = err (os_error "No such file or directory")
launched (some later) = ok tt

-- `subprocess.Popen`
unfoldable pub start_process : Env → Command → Io (Unit {0})
start_process env command h = (launched (env.process h command), started command ∷ h)

abbrev pub loaded : Option Page → Result Page
loaded none = err (os_error "RequestException")
loaded (some page) = ok page

-- `session.get` and `session.post`
unfoldable pub visit : Env → Visit → Io Page
visit env v h = (loaded (env.browse h v), visited v ∷ h)

-- `secrets.token_urlsafe`
unfoldable pub token_urlsafe : Env → ℕ → Io String
token_urlsafe env n h = (ok (env.token h n), drew n ∷ h)

-- `os.path.exists`
unfoldable pub path_exists : Env → String → Io Bool
path_exists env path h = (ok (env.exists h path), h)

-- `pexpect.spawn("ssh", ...)` and the dialogue up to `child.close()`
unfoldable pub ssh_session : Env → (host command : String) → Io Session
ssh_session env host command h = (ok (env.ssh h host command), ssh_ran host command ∷ h)

unfoldable pub emit : Event → Io (Unit {0})
emit e h = (ok tt, e ∷ h)

module _ {ℓ κ} {A : Type ℓ} {B : Type κ} where
  abbrev pub continue : Result A → (A → Io B) → Io B
  continue (ok a) f h = f a h
  continue (err e) f h = (err e, h)

  infixl 10 ◌>>=◌ ◌>>◌
  unfoldable pub ◌>>=◌ : Io A → (A → Io B) → Io B
  unfolding pure raise lift emit
  ◌>>=◌ m f h = let (r, h') = m h in continue r f h'

  abbrev pub ◌>>◌ : Io A → Io B → Io B
  m >> n = m >>= λ _. n

module _ {ℓ κ} {A : Type ℓ} {B : Type κ} where
  -- `[f(x) for x in xs]`, in order; the first exception ends it.
  unfoldable pub for_each : (A → Io B) → List A → Io (List B)
  unfolding pure ◌>>=◌
  for_each f [] = pure []
  for_each f (x ∷ xs) = do y ← f x; ys ← for_each f xs; pure (y ∷ ys)

-- ===== src/Pve/Http/Rules.antt =====
-- What a request adds to the history.
use mathlib.Core.List.{Memᴰ}
use rke2_lab.Base.{String, ◌≡◌, refl, Option}
use rke2_lab.Base.Dict.{Dict}
use rke2_lab.Py.Effect.{HttpRequest, Event, sent, Env}
use rke2_lab.Py.Effect.Rules.{Emits}
use rke2_lab.Pve.Http.{request}

-- One request is sent, with the method and the URL that were given.
pub Emits-request :
    {P : Event → Type 0} (env : Env) (method url ticket csrf : String) (form : Option (Dict String))
    → ((r : HttpRequest) → r.method ≡ method → r.url ≡ url → P (sent r))
    → Emits P (request env method url ticket csrf form)
unfolding request
Emits-request env method url ticket csrf form k = record {
  at = λ h p. (k _ refl refl, p);
  keeps = λ e h m. Memᴰ.tail m;
}

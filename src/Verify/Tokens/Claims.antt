-- ===== src/Verify/Tokens/Claims.antt =====
-- verify/helpers.py: `access_token_claims` finds the claims of a token whose parts have no padding.
use Prim.Native.Char.{code}
use Prim.Native.String.append
use Prim.Native.String.{count}
use rke2_lab.Base.{
  ℕ, ◌+◌, ◌%◌, ◌<◌, String, ◌<>◌, ◌≡◌, refl, ap, ◌∙◌, Bool, true, false, ◌&&◌, not, some, ◌∷◌,
  arith, eqb,
}
use rke2_lab.Py.Value.{Value}
use rke2_lab.Py.Text.{split_on}
use rke2_lab.Py.Effect.{ok, History, Env, lift}
use rke2_lab.Py.Effect.Returns.{bind_pair}
use rke2_lab.Verify.Session.{decoded}
use rke2_lab.Verify.Tokens.{
  pads, missing_pads, padded, second_part, decoded_bytes, access_token_claims,
}

-- The text has no dot.
unfoldable pub is_plain : String → Bool
is_plain String.[] = true
is_plain (String.◌∷◌ c s) = not (eqb (code c) b'.') && is_plain s

split_on-dot :
    (s rest : String)
    → is_plain s ≡ true
    → split_on b'.' (s <> ("." <> rest)) ≡ s ∷ split_on b'.' rest
unfolding split_on is_plain
split_on-dot String.[] rest plain =
    ap (split_on b'.') (append.nil ("." <> rest))
    ∙ ap (split_on b'.') (append.cons "." "" rest)
    ∙ ap (λ t. "" ∷ split_on b'.' t) (append.nil rest)
split_on-dot (String.◌∷◌ c s) rest plain =
    let ih : split_on b'.' (s <> ("." <> rest)) ≡ s ∷ split_on b'.' rest =
      split_on-dot s rest (ground (arith, plain)) in
    let other : eqb (code c) b'.' ≡ false = ground (arith, plain) in
    ap (split_on b'.') (append.cons c s ("." <> rest)) ∙ rw (ih, other) refl

-- No other number of pads below four makes the length a multiple of four.
missing_pads_unique : (n k : ℕ) → k < 4 → (n + k) % 4 ≡ 0 → missing_pads n ≡ k
unfolding missing_pads
missing_pads_unique n k small whole = omega arith

padded-pads :
    (part : String) (k : ℕ) → k < 4 → (count part + k) % 4 ≡ 0 → padded part ≡ part <> pads k
unfolding padded
padded-pads part k small whole =
    ap (λ n. part <> pads n) (missing_pads_unique (count part) k small whole)

-- A token of parts between dots, whose second part is a base64 text that lost its pads: where fewer
-- than four pads make its length a multiple of four, and the text with these pads decodes to JSON, the
-- claims are this JSON, nothing is raised and nothing else happens.
pub access_token_claims_unpadded :
    (env : Env) (header part rest text : String) (k : ℕ) (claims : Value) (h : History)
    → is_plain header ≡ true
    → is_plain part ≡ true
    → k < 4
    → (count part + k) % 4 ≡ 0
    → env.unbase64 (part <> pads k) ≡ some text
    → env.decode text ≡ some claims
    → access_token_claims env (header <> ("." <> (part <> ("." <> rest)))) h ≡ (ok claims, h)
unfolding access_token_claims lift
access_token_claims_unpadded env header part rest text k claims h p q small whole e d =
    let split : split_on b'.' (header <> ("." <> (part <> ("." <> rest))))
        ≡ header ∷ part ∷ split_on b'.' rest =
      split_on-dot header (part <> ("." <> rest)) p
      ∙ ap (λ l. header ∷ l) (split_on-dot part rest q) in
    let unpadded : env.unbase64 (padded part) ≡ some text =
      ap env.unbase64 (padded-pads part k small whole) ∙ e in
    bind_pair (lift (second_part (split_on b'.' (header <> ("." <> (part <> ("." <> rest))))))) _ h
      h part (ap (λ l. (second_part l, h)) split)
    ∙ bind_pair (lift (decoded_bytes (env.unbase64 (padded part)))) _ h h text
        (ap (λ o. (decoded_bytes o, h)) unpadded)
    ∙ ap (λ o. (decoded o, h)) d

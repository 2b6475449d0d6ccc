-- ===== src/Core/Config/Stored.antt =====
-- The validators of core/instance_config.py on a configuration that they have accepted before, as each
-- read of the stored settings runs them.
use Prim.Native.Char.{Char, code}
use mathlib.Core.Path.{subst}
use fuze.Prelude.{
  String, ◌≡◌, refl, ◌∙◌, ap, true, false, ◌&&◌, some, arith, ◌⊎◌, inl, inr, nat_beq, Bool-cases,
  Option-cases, ◌==◌, nat_eq, leb,
}
use fuze.Prelude.Texts.{
  strip, strip_left, strip_right, upper, mapped_in, is_space, is_alpha, count_chars,
}
use fuze.Core.Config.{
  FuzeConfig, is_valid_auth, normalize_market, normalize_instance_name, validate_config,
}

strip_right_idem : (s : String) → strip_right (strip_right s) ≡ strip_right s
unfolding strip_right
strip_right_idem String.[] = refl
strip_right_idem (String.◌∷◌ c s) = ground (arith, strip_right_idem s)

strip_left-strip :
    (s : String) → strip_left (strip_right (strip_left s)) ≡ strip_right (strip_left s)
unfolding strip_left strip_right
strip_left-strip String.[] = refl
strip_left-strip (String.◌∷◌ c s) = elim (Bool-cases (is_space c)) [
  | inl space ↦ rw space (strip_left-strip s)
  | inr other ↦ rw (other, other) (rw other refl)
]

strip_idem : (s : String) → strip (strip s) ≡ strip s
unfolding strip
strip_idem s = ap strip_right (strip_left-strip s) ∙ strip_right_idem (strip_left s)

-- a text of letters has no white space round it
strip_left-alpha : (s : String) → is_alpha s ≡ true → strip_left s ≡ s
unfolding strip_left is_alpha
strip_left-alpha String.[] h = refl
strip_left-alpha (String.◌∷◌ c s) h =
    let other : is_space c ≡ false = ground (arith, h) in rw other refl

strip_right-alpha : (s : String) → is_alpha s ≡ true → strip_right s ≡ s
unfolding strip_right is_alpha
strip_right-alpha String.[] h = refl
strip_right-alpha (String.◌∷◌ c s) h =
    let other : is_space c ≡ false = ground (arith, h) in
    let rest : is_alpha s ≡ true = ground (arith, h) in
    rw other (ap (λ t. String.◌∷◌ c t) (strip_right-alpha s rest))

strip-alpha : (s : String) → is_alpha s ≡ true → strip s ≡ s
unfolding strip
strip-alpha s h = rw (strip_left-alpha s h) (strip_right-alpha s h)

abbrev upper_char : Char → Char
upper_char = mapped_in "abcdefghijklmnopqrstuvwxyz" "ABCDEFGHIJKLMNOPQRSTUVWXYZ"

abbrev AllUpper : String → Type 0
AllUpper String.[] = Unit
AllUpper (String.◌∷◌ c s) = (upper_char c ≡ c) × AllUpper s

mapped_in-upper :
    (us ls : String) (c : Char)
    → AllUpper ls
    → (upper_char (mapped_in us ls c) ≡ mapped_in us ls c) ⊎ (mapped_in us ls c ≡ c)
mapped_in-upper String.[] ls c h = inr refl
mapped_in-upper (String.◌∷◌ u us) String.[] c h = inr refl
mapped_in-upper (String.◌∷◌ u us) (String.◌∷◌ l ls) c h =
    elim (Bool-cases (nat_beq (code c) (code u))) [
      | inl hit ↦ rw hit (inl h.0)
      | inr miss ↦ rw miss (mapped_in-upper us ls c h.1)
    ]

capitals : AllUpper "ABCDEFGHIJKLMNOPQRSTUVWXYZ"
capitals = ground arith

upper_char_idem : (c : Char) → upper_char (upper_char c) ≡ upper_char c
upper_char_idem c =
    elim (mapped_in-upper "abcdefghijklmnopqrstuvwxyz" "ABCDEFGHIJKLMNOPQRSTUVWXYZ" c capitals) [
      | inl fixed ↦ fixed
      | inr same ↦ ap upper_char same
    ]

upper_idem : (s : String) → upper (upper s) ≡ upper s
unfolding upper
upper_idem String.[] = refl
upper_idem (String.◌∷◌ c s) = rw (upper_char_idem c, upper_idem s) refl

-- What the validators accept in place of a value, they accept again.
pub normalize_market_again :
    (value market : String)
    → normalize_market value ≡ some market
    → normalize_market market ≡ some market
unfolding normalize_market
normalize_market_again value market e =
    let m = upper (strip value) in
    elim (Bool-cases (count_chars m == 2 && is_alpha m)) [
      | inl fits ↦
          (let same : m ≡ market = ground (arith, rw fits at e) in
            let letters : is_alpha m ≡ true = ground (arith, fits) in
            let again : upper (strip m) ≡ m =
              ap upper (strip-alpha m letters) ∙ upper_idem (strip value) in
            subst (λ x. normalize_market x ≡ some x) same (rw (again, fits) refl))
      | inr bad ↦ absurd (ground (arith, rw bad at e))
    ]

pub normalize_instance_name_again :
    (value name : String)
    → normalize_instance_name value ≡ some name
    → normalize_instance_name name ≡ some name
unfolding normalize_instance_name
normalize_instance_name_again value name e =
    let n = strip value in
    elim (Bool-cases (leb 1 (count_chars n) && leb (count_chars n) 100)) [
      | inl fits ↦
          (let same : n ≡ name = ground (arith, rw fits at e) in
            subst (λ x. normalize_instance_name x ≡ some x) same (rw (strip_idem value, fits) refl))
      | inr bad ↦ absurd (ground (arith, rw bad at e))
    ]

-- A configuration that the validators have accepted is accepted again and is not changed, so that a
-- read gives the settings as they were stored.
pub validate_config_again :
    (c stored : FuzeConfig) → validate_config c ≡ some stored → validate_config stored ≡ some stored
unfolding validate_config
validate_config_again c stored e =
    elim (Option-cases (normalize_market c.providers.spotify_market)) [
      | inl bad ↦ absurd (ground (arith, rw (validate_config, bad) at e))
      | inr (market, good) ↦ elim (Option-cases (normalize_instance_name c.instance_name)) [
        | inl bad ↦ absurd (ground (arith, rw (validate_config, good, bad) at e))
        | inr (name, named) ↦ elim (Bool-cases (is_valid_auth c.auth)) [
          | inl fits ↦
              (let whole : FuzeConfig = record c {
                instance_name = name;
                providers = record c.providers { spotify_market = market };
              } in
                let same : whole ≡ stored =
                  ground (arith, rw (validate_config, good, named, fits) at e) in
                subst (λ x. validate_config x ≡ some x) same
                  (rw
                    (
                      validate_config,
                      normalize_market_again c.providers.spotify_market market good,
                      normalize_instance_name_again c.instance_name name named,
                      fits,
                    )
                    refl))
          | inr bad ↦ absurd (ground (arith, rw (validate_config, good, named, bad) at e))
        ]
      ]
    ]

-- ===== src/Registration/Channels/Names.antt =====
-- The names of the channels in a list of registrations.
use Prim.Native.String.{String}
use nsq.Base.{◌≡◌, ◌↔◌, inl, inr, refl, sym, subst, true, false, List, [], ◌∷◌, map, Bool-cases}
use nsq.Base.Dict.{same, same_iff}
use nsq.Base.Members.{In, IsUnique, exists, exists_sound, none_pass}
use nsq.Registration.{ChannelReg}
use nsq.Registration.Channels.{channels_loop, channels}

abbrev pub names : List ChannelReg → List String
names rr = map (λ (k : ChannelReg). k.channel) rr

is_known : (n : String) (dup : List String) → exists (same n) dup ≡ true → In n dup
is_known n dup e =
    let (x, m, q) = exists_sound (same n) dup e in
    subst (λ y. In y dup) (sym ((same_iff n x).0 q)) m

is_new : (n : String) (dup : List String) → exists (same n) dup ≡ false → ¬ In n dup
is_new n dup e m = cc (none_pass (same n) dup n e m, (same_iff n n).1 refl)

-- The loop finds the names that were not met before.
channels_loop-In :
    (n : String) (dup : List String) (rr : List ChannelReg)
    → In n (channels_loop dup rr) ↔ (In n (names rr) × ¬ In n dup)
unfolding channels_loop
channels_loop-In n dup [] = (λ h. elim h [ ], λ h. h.0)
channels_loop-In n dup (k ∷ rr) =
    let (there, back) = channels_loop-In n dup rr in
    let (there', back') = channels_loop-In n (k.channel ∷ dup) rr in
    elim (Bool-cases (exists (same k.channel) dup)) [
      | inl known ↦ rw known (
        λ h. (inr (there h).0, (there h).1),
        λ h. elim h.0 [
          | inl e ↦ absurd (h.1 (subst (λ y. In y dup) (sym e) (is_known k.channel dup known)))
          | inr m ↦ back (m, h.1)
        ],
      )
      | inr new ↦ rw new (
        λ h. elim h [
          | inl e ↦ (inl e, λ m. is_new k.channel dup new (subst (λ y. In y dup) e m))
          | inr m ↦ (inr (there' m).0, λ q. (there' m).1 (inr q))
        ],
        λ h. elim h.0 [
          | inl e ↦ inl e
          | inr m ↦ elim (Bool-cases (same n k.channel)) [
            | inl here ↦ inl ((same_iff n k.channel).0 here)
            | inr other ↦ inr (
                back' (
                  m,
                  λ q. elim q [ inl e ↦ cc ((same_iff n k.channel).1 e, other) | inr q' ↦ h.1 q' ],
                ))
          ]
        ],
      )
    ]

channels_loop-IsUnique :
    (dup : List String) (rr : List ChannelReg) → IsUnique (channels_loop dup rr)
unfolding channels_loop
channels_loop-IsUnique dup [] = tt
channels_loop-IsUnique dup (k ∷ rr) = elim (Bool-cases (exists (same k.channel) dup)) [
  | inl known ↦ rw known (channels_loop-IsUnique dup rr)
  | inr new ↦ rw new (
    λ m. ((channels_loop-In k.channel (k.channel ∷ dup) rr).0 m).1 (inl refl),
    channels_loop-IsUnique (k.channel ∷ dup) rr,
  )
]

-- Channels: the names of the channels in the registrations, those and no others, each once.
pub channels_correct :
    (rr : List ChannelReg)
    → IsUnique (channels rr) × ((n : String) → In n (channels rr) ↔ In n (names rr))
unfolding channels
channels_correct rr = (
  channels_loop-IsUnique [] rr,
  λ n. let (there, back) = channels_loop-In n [] rr in (λ h. (there h).0, λ h. back (h, λ q. q)),
)

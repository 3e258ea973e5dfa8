-- ===== src/Tun/Opening.antt =====
-- common/tun.go: what `CreateTunDevice` leaves open, and what it has done to the device it returns.
use Prim.Native.String.{String}
use text.Mathlib.Text.{◌==◌ as str_eq}
use masque_vpn.Prelude.{
  ℕ, ◌≡◌, refl, sym, ap, subst, ◌∙◌, Option, none, some, Result, ok, err, List, [], ◌∷◌, ◌++◌, map,
  arith, ◌==◌, All, if◌then◌else◌,
}
use masque_vpn.Prelude.Int.{ℤ}
use masque_vpn.Ip.Addr.{IpNet}
use masque_vpn.Tun.Platform.{
  Platform, Texts, Words, Exec, Command, CommandError, after_command, run_commands,
  default_platform_tun_name, set_ip_commands, set_platform_ip,
}
use masque_vpn.Tun.Device.{
  TunDevice, Os, TunError, Effect, opened, closed, ran, Created, after_set_ip, after_name,
  after_create, create_tun_device,
}

abbrev pub remove : ℕ → List ℕ → List ℕ
remove h [] = []
remove h (k ∷ handles) = if k == h then remove h handles else k ∷ remove h handles

-- The devices that are open after the effects, of those that were open before and those opened.
abbrev pub open_after : List ℕ → List Effect → List ℕ
open_after handles [] = handles
open_after handles (opened h ∷ effects) = open_after (h ∷ handles) effects
open_after handles (closed h ∷ effects) = open_after (remove h handles) effects
open_after handles (ran words ∷ effects) = open_after handles effects

abbrev pub held : Result TunError TunDevice → List ℕ
held (ok d) = d.device ∷ []
held (err e) = []

abbrev pub commands_of : List Effect → List Words
commands_of [] = []
commands_of (opened h ∷ effects) = commands_of effects
commands_of (closed h ∷ effects) = commands_of effects
commands_of (ran words ∷ effects) = words ∷ commands_of effects

-- Each command is done without an error.
abbrev pub AllSucceed : Exec → List Words → Type 0
AllSucceed exec words = All (λ w. (exec w).1 ≡ none) words

abbrev pub words_of : List Command → List Words
words_of [] = []
words_of (c ∷ commands) = c.words ∷ words_of commands

-- The device has the name that the driver gave it, and all commands that set its address, and no
-- others, were done without an error.
abbrev pub IsConfigured : Platform → Texts → Os → IpNet → Created → Type 0
IsConfigured platform t os ip_net (err e, effects) = Unit
IsConfigured platform t os ip_net (ok d, effects) =
    (os.device_name d.device ≡ ok d.name)
    × (commands_of effects ≡ words_of (set_ip_commands platform t d.name ip_net))
    × AllSucceed os.exec (commands_of effects)

pub open_after-append :
    (handles : List ℕ) (es fs : List Effect)
    → open_after handles (es ++ fs) ≡ open_after (open_after handles es) fs
open_after-append handles [] fs = refl
open_after-append handles (opened h ∷ es) fs = open_after-append (h ∷ handles) es fs
open_after-append handles (closed h ∷ es) fs = open_after-append (remove h handles) es fs
open_after-append handles (ran words ∷ es) fs = open_after-append handles es fs

open_after-ran :
    (handles : List ℕ) (words : List Words) (effects : List Effect)
    → open_after handles (map ran words ++ effects) ≡ open_after handles effects
open_after-ran handles [] effects = refl
open_after-ran handles (w ∷ words) effects = open_after-ran handles words effects

commands_of-ran : (words : List Words) → commands_of (map ran words) ≡ words
commands_of-ran [] = refl
commands_of-ran (w ∷ words) = ap (◌∷◌ w) (commands_of-ran words)

-- Where no command fails, all were done.
run_commands-none :
    (exec : Exec) (commands : List Command)
    → (run_commands exec commands).0 ≡ none
    → ((run_commands exec commands).1 ≡ words_of commands) × AllSucceed exec (words_of commands)
unfolding run_commands
run_commands-none exec [] e = (refl, tt)
run_commands-none exec (c ∷ commands) e =
    go (exec c.words) refl e (λ h. run_commands-none exec commands h)
  where
    go :
        (r : String × Option String)
        → r ≡ exec c.words
        → (after_command c r (run_commands exec commands)).0 ≡ none
        → ((run_commands exec commands).0 ≡ none
            → ((run_commands exec commands).1 ≡ words_of commands)
              × AllSucceed exec (words_of commands))
        → ((after_command c r (run_commands exec commands)).1 ≡ c.words ∷ words_of commands)
          × (((exec c.words).1 ≡ none) × AllSucceed exec (words_of commands))
    go (output, some failure) q h rest = absurd (cc)
    go (output, none) q h rest = (ap (◌∷◌ c.words) (rest h).0, (ap (λ t. t.1) (sym q), (rest h).1))

pub open_after-map :
    (handles : List ℕ) (words : List Words) → open_after handles (map ran words) ≡ handles
open_after-map handles [] = refl
open_after-map handles (w ∷ words) = open_after-map handles words

-- What is shown of `CreateTunDevice`, of the outcome of one of its parts.
abbrev pub Opens : Platform → Texts → Os → IpNet → Created → Type 0
Opens platform t os ip_net r = (open_after [] r.1 ≡ held r.0) × IsConfigured platform t os ip_net r

after_set_ip-Opens :
    (platform : Platform) (t : Texts) (os : Os) (ip_net : IpNet) (d : TunDevice)
    → os.device_name d.device ≡ ok d.name
    → (r : Option CommandError × List Words) → r ≡ set_platform_ip platform t os.exec d.name ip_net
    → Opens platform t os ip_net (after_set_ip d r)
unfolding set_platform_ip
after_set_ip-Opens platform t os ip_net d named (some e, words) q =
    (open_after-ran (d.device ∷ []) words (closed d.device ∷ []) ∙ ground arith, tt)
after_set_ip-Opens platform t os ip_net d named (none, words) q =
    let (all_done, succeed) =
      run_commands-none os.exec (set_ip_commands platform t d.name ip_net)
        (ap (λ r. r.0) (sym q)) in
    let commands : commands_of (map ran words)
        ≡ words_of (set_ip_commands platform t d.name ip_net) =
      commands_of-ran words ∙ ap (λ r. r.1) q ∙ all_done in
    (
      open_after-map (d.device ∷ []) words,
      (named, commands, subst (AllSucceed os.exec) (sym commands) succeed),
    )

after_name-Opens :
    (platform : Platform) (t : Texts) (os : Os) (ip_net : IpNet) (device : ℕ)
    → (r : Result String String) → os.device_name device ≡ r
    → Opens platform t os ip_net (after_name platform t os ip_net device r)
after_name-Opens platform t os ip_net device (err e) q = (ground arith, tt)
after_name-Opens platform t os ip_net device (ok name) q =
    after_set_ip-Opens platform t os ip_net (record { device = device; name = name }) q
      (set_platform_ip platform t os.exec name ip_net) refl

after_create-Opens :
    (platform : Platform) (t : Texts) (os : Os) (ip_net : IpNet) (r : Result String ℕ)
    → Opens platform t os ip_net (after_create platform t os ip_net r)
after_create-Opens platform t os ip_net (err e) = (refl, tt)
after_create-Opens platform t os ip_net (ok device) =
    after_name-Opens platform t os ip_net device (os.device_name device) refl

-- Whatever the driver and the commands answer, on each platform: `CreateTunDevice` leaves a device
-- open exactly when it returns it, and closes what it opened on every error. A device that it
-- returns has the name that the driver gives it, and all commands that set its address were done,
-- in order, no others, and none failed.
pub create_tun_device_lem :
    (platform : Platform) (t : Texts) (os : Os) (name : String) (ip_net : IpNet) (mtu : ℤ)
    → Opens platform t os ip_net (create_tun_device platform t os name ip_net mtu)
unfolding create_tun_device
create_tun_device_lem platform t os name ip_net mtu =
    after_create-Opens platform t os ip_net
      (os.create_tun (if str_eq name "" then default_platform_tun_name platform else name) mtu)

-- ===== src/KubePortFwd/Host.antt =====
-- The host that server/kube-portfwd.go takes from the configured address of the cluster.
use Prim.Native.Char.{Char}
use Prim.Native.String.{◌++◌}
use text.Mathlib.TextLemmas.{nil-append, cons-append}
use container_cloudlet.Common.{ℕ, String, ◌≡◌, ◌∙◌, refl, true, false}
use container_cloudlet.KubePortFwd.{has_char, trim_left, scheme_cutset, port_forward_request}

-- Every character is in the cutset.
abbrev AllIn : String → String → Type 0
AllIn String.[] cutset = Unit
AllIn (String.◌∷◌ c s) cutset = (has_char cutset c ≡ true) × AllIn s cutset

trim_left-append :
    (s t cutset : String) → AllIn s cutset → trim_left (s ++ t) cutset ≡ trim_left t cutset
unfolding trim_left
trim_left-append String.[] t cutset h = rw nil-append refl
trim_left-append (String.◌∷◌ c s) t cutset h =
    rw (cons-append, trim_left, h.0) (trim_left-append s t cutset h.1)

trim_left_stop :
    (c : Char) (s cutset : String)
    → has_char cutset c ≡ false
    → trim_left (String.◌∷◌ c s) cutset ≡ String.◌∷◌ c s
unfolding trim_left
trim_left_stop c s cutset h = rw h refl

trim_left_more :
    (c : Char) (s cutset : String)
    → has_char cutset c ≡ true
    → trim_left (String.◌∷◌ c s) cutset ≡ trim_left s cutset
unfolding trim_left
trim_left_more c s cutset h = rw h refl

https_in : AllIn "https://" scheme_cutset
unfolding has_char
https_in = (refl, (refl, (refl, (refl, (refl, (refl, (refl, (refl, tt))))))))

-- The host of the request for a cluster at `https://` and a host `c rest`.
abbrev pub requested_host : Char → String → String → String → ℕ → ℕ → String
requested_host c rest namespace pod_name local_port pod_port =
    (port_forward_request ("https://" ++ String.◌∷◌ c rest) namespace pod_name local_port
      pod_port).url.host

module _ (namespace pod_name : String) (local_port pod_port : ℕ) where
  -- For a cluster at `https://` and a host that begins with none of the letters `h`, `t`, `p`, `s`, a
  -- colon or a slash, the port-forward goes to that host.
  host-kept :
      (c : Char) (rest : String)
      → has_char scheme_cutset c ≡ false
      → requested_host c rest namespace pod_name local_port pod_port ≡ String.◌∷◌ c rest
  unfolding port_forward_request
  host-kept c rest h =
      trim_left-append "https://" (String.◌∷◌ c rest) scheme_cutset https_in
      ∙ trim_left_stop c rest scheme_cutset h

  -- For a cluster at `https://` and a host that begins with one of these characters, the request names
  -- the host that is left after the cutset has been trimmed from the rest, without that character.
  host-cut :
      (c : Char) (rest : String)
      → has_char scheme_cutset c ≡ true
      → requested_host c rest namespace pod_name local_port pod_port ≡ trim_left rest scheme_cutset
  unfolding port_forward_request
  host-cut c rest h =
      trim_left-append "https://" (String.◌∷◌ c rest) scheme_cutset https_in
      ∙ trim_left_more c rest scheme_cutset h

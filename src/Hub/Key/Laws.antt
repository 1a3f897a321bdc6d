-- ===== src/Hub/Key/Laws.antt =====
-- hub/key.go: what the keys are, and that a key names its service and its endpoint.
use mathlib.Core.List.{append_assoc}
use mathlib.Core.List.{append_cancel_left}
use skylb.Prelude.{
  ◌≡◌, ◌≢◌, refl, ap, sym, ◌∙◌, List, [], ◌∷◌, ◌++◌, Str, ℤ, arith, All, All-append,
}
use skylb.Go.Strings.{lit, Without, Without-append, cut_last_unique}
use skylb.Go.Strconv.{itoa, itoa-Without, itoa_inj}
use skylb.Go.Path.{slash, dir}
use skylb.Go.Path.Segments.{IsSegment, render, join_path-render, dir-render, render_inj}
use skylb.Deps.{Deps, HasPaths}
use skylb.Hub.Key.{host_port, calculate_key, calculate_endpoint_key}

-- A host without a slash and a port make a proper segment.
pub host_port-IsSegment :
    (host : Str) (port : ℤ) → Without slash host → IsSegment (host_port host port)
unfolding host_port
host_port-IsSegment host port h = record {
  whole =
      Without-append slash host _ h ((λ e. omega arith), itoa-Without slash port (λ n. n.2 refl));
  not_empty = not_empty host;
  not_dot = not_dot host;
  not_dots = not_dots host;
}
  where
    not_empty : (s : Str) → s ++ b'_' ∷ itoa port ≢ []
    not_empty [] e = ground arith
    not_empty (x ∷ xs) e = ground arith

    not_dot : (s : Str) → s ++ b'_' ∷ itoa port ≢ lit "."
    not_dot [] e = ground arith
    not_dot (x ∷ xs) e = not_empty xs (cc)

    not_dots : (s : Str) → s ++ b'_' ∷ itoa port ≢ lit ".."
    not_dots [] e = ground arith
    not_dots (x ∷ xs) e = not_dot xs (cc)

pub host_port_inj :
    (host host' : Str) (port port' : ℤ)
    → host_port host port ≡ host_port host' port'
    → (host ≡ host') × (port ≡ port')
unfolding host_port
host_port_inj host host' port port' e =
    let cut : (host ≡ host') × (itoa port ≡ itoa port') =
      cut_last_unique b'_' host host' (itoa port) (itoa port')
        (itoa-Without b'_' port (λ n. omega arith)) (itoa-Without b'_' port' (λ n. omega arith))
        e in
    (cut.0, itoa_inj port port' cut.1)

module _ (d : Deps) (paths : HasPaths d) where
  open paths use {endpoints_first, endpoints_rest, endpoints_segments, endpoints_path}

  pub calculate_key-render :
      (namespace service_name : Str)
      → IsSegment namespace
      → IsSegment service_name
      → calculate_key d namespace service_name
        ≡ render (endpoints_first ∷ (endpoints_rest ++ namespace ∷ service_name ∷ []))
  unfolding calculate_key
  calculate_key-render ns sn h k = rw endpoints_path (
      join_path-render endpoints_first endpoints_rest (ns ∷ sn ∷ []) endpoints_segments
        (h, (k, tt)))

  pub calculate_endpoint_key-render :
      (namespace service_name host : Str) (port : ℤ)
      → IsSegment namespace
      → IsSegment service_name
      → Without slash host
      → calculate_endpoint_key d namespace service_name host port
        ≡ render (
            endpoints_first
            ∷ (endpoints_rest ++ namespace ∷ service_name ∷ host_port host port ∷ []))
  unfolding calculate_endpoint_key
  calculate_endpoint_key-render ns sn host port h k l = rw endpoints_path (
      join_path-render endpoints_first endpoints_rest (ns ∷ sn ∷ host_port host port ∷ [])
        endpoints_segments (h, (k, (host_port-IsSegment host port l, tt))))

  -- The directory of an endpoint's key is the key of its service, which is where the watcher looks
  -- the service up.
  pub dir-calculate_endpoint_key :
      (namespace service_name host : Str) (port : ℤ)
      → IsSegment namespace
      → IsSegment service_name
      → Without slash host
      → dir (calculate_endpoint_key d namespace service_name host port)
        ≡ calculate_key d namespace service_name
  dir-calculate_endpoint_key ns sn host port h k l =
      ap dir (
        calculate_endpoint_key-render ns sn host port h k l
        ∙ ap (λ t. render (endpoints_first ∷ t))
            (sym (append_assoc endpoints_rest (ns ∷ sn ∷ []) (host_port host port ∷ []))))
      ∙ dir-render endpoints_first (endpoints_rest ++ ns ∷ sn ∷ []) (host_port host port)
          (All-append IsSegment (endpoints_first ∷ endpoints_rest) (ns ∷ sn ∷ []) endpoints_segments
            (h, (k, tt)))
          (host_port-IsSegment host port l)
      ∙ sym (calculate_key-render ns sn h k)

  segments_cancel :
      (ws ws' : List Str)
      → All IsSegment ws
      → All IsSegment ws'
      → render (endpoints_first ∷ (endpoints_rest ++ ws))
        ≡ render (endpoints_first ∷ (endpoints_rest ++ ws'))
      → ws ≡ ws'
  segments_cancel ws ws' h h' e = append_cancel_left (endpoints_first ∷ endpoints_rest) ws ws' (
      render_inj endpoints_first endpoints_first (endpoints_rest ++ ws) (endpoints_rest ++ ws')
        (All-append IsSegment (endpoints_first ∷ endpoints_rest) ws endpoints_segments h)
        (All-append IsSegment (endpoints_first ∷ endpoints_rest) ws' endpoints_segments h') e)

  -- Two services of proper names have one key only if they are the same service.
  pub calculate_key_inj :
      (namespace namespace' service_name service_name' : Str)
      → All IsSegment (namespace ∷ service_name ∷ namespace' ∷ service_name' ∷ [])
      → calculate_key d namespace service_name ≡ calculate_key d namespace' service_name'
      → (namespace ≡ namespace') × (service_name ≡ service_name')
  calculate_key_inj ns ns' sn sn' (h, (k, (h', (k', _)))) e =
      let same : ns ∷ sn ∷ [] ≡ ns' ∷ sn' ∷ [] =
        segments_cancel (ns ∷ sn ∷ []) (ns' ∷ sn' ∷ []) (h, (k, tt)) (h', (k', tt))
          (sym (calculate_key-render ns sn h k) ∙ e ∙ calculate_key-render ns' sn' h' k') in
      (cc, cc)

  -- Two endpoints have one key only if they agree in service, host and port, whatever the host's
  -- bytes other than the slash: the port follows the last underscore.
  pub calculate_endpoint_key_inj :
      (namespace namespace' service_name service_name' host host' : Str) (port port' : ℤ)
      → All IsSegment (namespace ∷ service_name ∷ namespace' ∷ service_name' ∷ [])
      → Without slash host
      → Without slash host'
      → calculate_endpoint_key d namespace service_name host port
        ≡ calculate_endpoint_key d namespace' service_name' host' port'
      → (namespace ≡ namespace') × (service_name ≡ service_name') × (host ≡ host') × (port ≡ port')
  calculate_endpoint_key_inj ns ns' sn sn' host host' port port' (h, (k, (h', (k', _)))) l l' e =
      let same : ns ∷ sn ∷ host_port host port ∷ [] ≡ ns' ∷ sn' ∷ host_port host' port' ∷ [] =
        segments_cancel (ns ∷ sn ∷ host_port host port ∷ [])
          (ns' ∷ sn' ∷ host_port host' port' ∷ []) (h, (k, (host_port-IsSegment host port l, tt)))
          (h', (k', (host_port-IsSegment host' port' l', tt)))
          (sym (calculate_endpoint_key-render ns sn host port h k l)
            ∙ e
            ∙ calculate_endpoint_key-render ns' sn' host' port' h' k' l') in
      let ends : (host ≡ host') × (port ≡ port') = host_port_inj host host' port port' (cc) in
      (cc, cc, ends.0, ends.1)

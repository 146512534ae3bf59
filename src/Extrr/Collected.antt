-- ===== src/Extrr/Collected.antt =====
-- Which requests are read as signals.
use nvsentinel_capi_remediat.Common.{
  String, ◌==◌, ◌≡◌, refl, ◌∙◌, Bool, not, ◌&&◌, ◌||◌, List, [], ◌∷◌, is_blank, exists_in,
  exists_in-sort_by, arith,
}
use nvsentinel_capi_remediat.Objects.{Request}
use nvsentinel_capi_remediat.Signal.{Signal}
use nvsentinel_capi_remediat.Extrr.{parse, pending, collect, signals_of, parsed}

module _ (name node : String) where
  abbrev pub is_for : Signal → Bool
  is_for sig = sig.request == name && sig.node == node

  abbrev pub asks_for : Request → Bool
  asks_for obj =
      pending obj
      && not (is_blank obj.health_event.node_name)
      && obj.name == name
      && obj.health_event.node_name == node

  exists-parsed :
      (obj : Request) (out : List Signal)
      → exists_in is_for (parsed (parse obj) out) ≡ (
          not (is_blank obj.health_event.node_name)
            && obj.name == name
            && obj.health_event.node_name == node
          || exists_in is_for out)
  unfolding parse
  exists-parsed obj out = ground arith

  exists-signals_of :
      (items : List Request) → exists_in is_for (signals_of items) ≡ exists_in asks_for items
  unfolding signals_of
  exists-signals_of [] = refl
  exists-signals_of (obj ∷ items) =
      ground (arith, exists-signals_of items, exists-parsed obj (signals_of items))

  -- Among the signals that are collected is one for a request's name and a node's name exactly when
  -- a request of that name is pending and its health event names that node, not the empty name.
  pub collect-pending :
      (items : List Request) → exists_in is_for (collect items) ≡ exists_in asks_for items
  unfolding collect
  collect-pending items = exists_in-sort_by is_for _ (signals_of items) ∙ exists-signals_of items

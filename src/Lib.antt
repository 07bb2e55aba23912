-- ===== src/Lib.antt =====
-- MX-TCE, a topology computation element: it takes requests for bandwidth between end points, searches a
-- traffic engineering graph for paths, and keeps track of the reservations on its links over time. What is
-- modelled here is what the searches and the reservations rest on, one module for each part:
--
-- - TagSet: `ConstraintTagSet` (src/common/utils.hh), the sets of VLAN tags, time slots and wavelengths, with
--   `AddTag` as `add_tag`, `Intersect` as `intersect` and so on. Byte, Masks, Slots and Scan carry the bits; Member,
--   Bitmasks, Combine, Extremes, Whole and Random hold the theorems.
-- - Wire: the fields of the API's messages (src/api/encode_pri.cc), and Wire/Decode the readers (src/api/decode_pri.cc).
-- - Schedule and Delta: `TSchedule`, and `TDelta` with the classes of `TLinkDelta` (src/resvManager/reservation.hh and
--   reservation.cc), with what they change in a link and its descriptors (src/tedbManager/resource.hh). A delta takes
--   tags through `TagSet`.
-- - Series: `AggregateDeltaSeries` (src/compute/scheduling.cc), the deltas of one link in the order of their times,
--   with `AddDelta` as `add_delta`. Pieces, Adding, Merging and Loop follow a round of its loop.
-- - Graph: `BandwidthAvailabilityGraph` (src/compute/scheduling.cc), made from a series.
-- - Master: `Event`, `Timer` and `EventMaster` (src/common/event.hh and event.cc); Master/Fetch has the loops.
-- - Action: `Action` (src/compute/action.hh and action.cc), the life of one step of a workflow, which the event master runs.
--   Of the derived actions it takes what `Process`, `ProcessMessages`, `ProcessChildren` and `Finish` return and throw;
--   their `CleanUp` is that of `Action`, which each of them calls at the end.
-- - Path: `TSpec`, and the checks `IsAvailableForTspec`, `VerifyEdgeLinkTSpec` and `VerifyLoopFree` on links and paths
--   (src/tedbManager/tewg.hh and tewg.cc).
-- - Search: `TEWG::ComputeDijkstraPath` (src/tedbManager/tewg.cc) as `compute_dijkstra_path`, on nodes and links that are
--   numbers, with their work data as functions. Steps, Relaxing, Choosing and Starting follow its loops; Ends, Shortest,
--   Complete and Missed hold the theorems.
-- - Ksp: `TEWG::ComputeKShortestPaths` (src/tedbManager/tewg.cc) as `compute_k_shortest_paths`, which runs Search from every
--   node where a new path can leave one that was found. Final, Chains, Routes and Rounds follow its loops.
-- - Hop: what a link does to the tags and the specification of a path, the methods of `TLink` from
--   `CanBeLastHopTrunk` on (src/tedbManager/tewg.cc), over the tag sets of TagSet; Hop/Crossing has those on switching regions.
-- - Verify: `TPath::VerifyTEConstraints` (src/tedbManager/tewg.cc). Verify/Loop is its loop over the links of a path, which
--   calls the methods of Hop, and Verify/Picks the choice of tags after it.
-- - Message: `Message` (src/common/message.cc), how `Transmit` lays it out on a socket and `Receive` reads it back.
-- - Base: shared helpers. Tests: the theorems at concrete inputs.
--
-- How the code is written down. Numbers are natural numbers, with the wrap-around of machine words written out;
-- times and metrics are not negative. A failed assertion and an access outside an array are `none`. Where the code holds
-- pointers into a container that it changes, the entries have handles (Series) or there is a heap of events
-- (Master). The clock, `select`, `random`, the virtual methods of an action and the state of its message port are
-- arguments. A loop is recursion on its list; `Fetch` recurses on the turns that the clock and `select` are asked
-- for, and answers that it would go around again when these run out. `compute_dijkstra_path` has as much fuel as
-- there are nodes and links of the source: each round takes one node off the list of reachable ones, and a node goes
-- on that list again only if it was never there, or once for each link of the source. `run_rounds` turns K times at
-- most. Its costs are sums of metrics far below what a double holds exactly.
--
-- Not modelled: the rest of the traffic engineering graph (src/tedbManager/tewg.cc: its editing and lookups, the
-- paths between many end points), the derived workers and actions (src/compute/compute_actions.cc and others),
-- reservations as a whole, the queues and routes of messages (src/common/message.cc), the request and reply codecs
-- of the API, the GENI front end, and system calls. The range strings of tag sets are read and printed by `sscanf`
-- and `snprintf`, and left out.
pub mod Base
pub mod TagSet
pub mod Wire
pub mod Schedule
pub mod Delta
pub mod Series
pub mod Graph
pub mod Master
pub mod Action
pub mod Path
pub mod Search
pub mod Hop
pub mod Verify
pub mod Ksp
pub mod Message
pub mod Tests

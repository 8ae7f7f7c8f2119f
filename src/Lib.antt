-- ===== src/Lib.antt =====
-- go-libp2p-kad-dht, the Kademlia DHT of libp2p: a model of its core in functions, and theorems on them.
--
-- A lookup (query.go) asks peers that come ever closer to a key, up to alpha of them at a time; it
-- keeps them in a peer set (qpeerset/qpeerset.go), drops crowded answers with the diversity filter
-- (rt_diversity_filter.go), and ends in a result that the operations of routing.go use. The search for
-- values runs on the values that such a lookup yields. Other nodes' messages go to handlers.go, which
-- keeps records in a datastore and hands provider records to the store of records/. The refresh of
-- rtrefresh/ starts lookups for parts of the routing table that were not used for long, and dual/ joins
-- the answers of two such nodes. Requests leave through internal/net, which keeps a stream for each peer.
-- lookup_optim.go sends provider records while a lookup still runs, the crawler walks the whole network,
-- and fullrt/ keeps what it finds. The mode of a node (dht.go) follows the events of the host.
--
-- Files, and the code that they model:
--   Prelude    tests, signed integers, lists and maps on native numbers.
--   Network    peer.AddrInfo; an address is opaque.
--   Qpeerset   qpeerset/qpeerset.go: TryAdd is try_add, SetState set_state, GetClosestNInStates
--              get_closest_n_in_states, and so on. The key space is a parameter. A panic of the code
--              (a peer that is not in the set, a slice bound below 0) is `none`.
--   Query      query.go: `run` is a function from the events of its channels and the answers of the
--              stop function to the query's state; updateState is update_state, isReadyToTerminate
--              is_ready_to_terminate, spawnQuery spawn_query. The goroutines that have started and not
--              reported stand in `in_flight`. Query/Result has constructLookupResult,
--              recordValuablePeers and the follow-up of runLookupWithFollowup, Query/Worker queryPeer
--              and dialPeer.
--   Diversity  rt_diversity_filter.go: Allow, Increment, Decrement, and in Diversity/Response
--              filterPeersByIPDiversity.
--   Values     routing.go: processValues, searchValueQuorum, and the choice of the peers that
--              SearchValue corrects.
--   Handlers   handlers.go: handleGetValue, handlePutValue, checkLocalDatastore and
--              getRecordFromDatastore; in Handlers/Peers handleFindPeer, handleGetProviders,
--              handleAddProvider, handlePing, handlerForMsgType, and betterPeersToQuery of dht.go.
--   Providers  records/providers_manager.go and records/provider_set.go: each case of the select of
--              `run` is a function on the manager's state.
--   Refresh    rtrefresh/rt_refresh_manager.go: doRefresh is do_refresh, a round of loop loop_round.
--   Dual       dual/dual.go: the loop of FindProvidersAsync on the inputs of its select, FindPeer,
--              GetValue, combineErrors.
--   Fullrt     fullrt/dht.go: GetClosestPeers under its diversity limit, execOnMany on the events of its
--              select, divideByChunkSize, Ready; bulkMessageSend is planned_messages and, for its
--              goroutines, the moves of Fullrt/Sending. The trie's order is a parameter, and so is the
--              number of successes that waitFrac yields.
--   Crawler    crawler/crawler.go: queryPeer is query_peer; Crawler/System has Run as a step relation on
--              the main loop, its two channels with one element each, and the workers.
--   Messages   internal/net/message_manager.go: the loops of SendRequest and SendMessage are send_loop, on
--              the rounds of what the stream answers; the accesses of the goroutines to the map of senders
--              are the moves of a Manager.
--   Optimistic lookup_optim.go: stopFn is stop_fn, and the accesses to the states of the RPCs are a list;
--              Optimistic/Waiting has waitForRPCs and consumeDoneChan as a step relation.
--   Routing    routing.go: PutValue with getLocal and putLocal of dht.go, the query function of getValues,
--              findProvidersAsyncRoutine, FindPeer and classicProvide, on what the lookup yields;
--              Routing/Searching has GetValue with the search of Values.
--   Node       dht.go and subscriber_notifee.go: setMode is set_mode, peerFound peer_found; on_event is the
--              loop of startNetworkSubscriber, together with the host's streams; rtPeerLoop is
--              rt_peer_round.
--   Netsize    netsize/netsize.go: Track is track, NetworkSize network_size; the fit is a parameter.
--   Filters    dht_filters.go: the query and routing table filters and the cached router, on the tests of
--              an address that third-party code yields.
--   PublicKeys records.go: GetPublicKey is get_public_key, in either order of its two answers.
--
-- Peers, keys, byte strings and addresses are numbers. Loops are structural recursion, on the list that
-- the loop goes over or on the list of events that its channels yield. One loop has fuel: the batches of
-- GetClosestPeers of fullrt/dht.go, as many rounds as there are keys, which is enough since a round takes
-- at least one key (Fullrt/Batches). Goroutines that interleave are a step relation or a list of moves. The
-- counts of the diversity filter are signed integers; durations wrap at 64 bits where the code doubles
-- them. Time is a parameter of each operation.
--
-- Not modelled: the construction of the DHT and its options, the writing operations of the full routing
-- table client, the fit of the size estimator, the reading and writing of streams, metrics, and generated
-- code. What these parts, libp2p, the datastore and the validator yield are parameters. The use that a routing
-- table makes of the diversity filter is that of go-libp2p-kbucket (Diversity/Limits).
pub mod Prelude
pub mod Qpeerset
pub mod Network
pub mod Query
pub mod Diversity
pub mod Values
pub mod Handlers
pub mod Providers
pub mod Refresh
pub mod Dual
pub mod Fullrt
pub mod Crawler
pub mod Messages
pub mod Optimistic
pub mod Routing
pub mod Node
pub mod Netsize
pub mod Filters
pub mod PublicKeys

-- ===== src/Lib.antt =====
-- A model of go-quant-tick, which collects the trades of cryptocurrency exchanges over
-- websockets, coalesces and filters them, and stores them in a database in buckets of a minute.
--
-- An adapter for each exchange turns its messages into trade events and sends them into one
-- channel. The command gives every trade to the pipeline: it publishes the raw trade, coalesces
-- sequential trades of one market, timestamp and tick rule, publishes the result, and holds
-- results back until one is as large as the threshold of its market or the window ends. With a
-- database the publishers put raw and coalesced trades into the bucket of their market and
-- minute, in order and without duplicates. A flush takes whole buckets out of the buffer, merges
-- them with the rows that are stored, derives the coalesced and the filtered trades of the
-- bucket, and writes the rows in one transaction; where that fails the buckets go back into the
-- buffer. A worker flushes the buckets before the last trade of each market, and tries again
-- later where that fails. The adapters remember the trades that they emitted, limit their
-- requests, and reconnect with growing delays.
--
-- Trade.antt: quanttick/trade_event.go. Aggregator.antt: quanttick/trade_aggregator.go, with the
-- well-formedness of its state in Aggregator/Safety.antt. Significant.antt:
-- quanttick/significant_aggregator.go, with its ticks in Significant/Segments.antt, Totals.antt
-- and Range.antt. Merge.antt: quanttick/websocket_data_merge.go, in Merge/Coalesce.antt
-- (aggregateTradeEvents), Merge/Less.antt (the order of trades), Merge/Insert.antt (insertion,
-- duplicates and merging) and Merge/Filter.antt (the volume filter and the derivation of a
-- bucket). Stream.antt, Store.antt and Buffer.antt: quanttick/websocket_data_publisher.go,
-- quanttick/websocket_data_store.go and quanttick/websocket_data_buffer.go. Pipeline.antt:
-- quanttick/pipeline.go. Thresholds.antt: quanttick/symbol_thresholds.go. Recovery.antt:
-- quanttick/exchanges/recovery.go and quanttick/exchanges/seen_trades.go. Exchanges.antt: the
-- adapters of four venues, with quanttick/exchanges/exchange_runtime.go in
-- Exchanges/Runtime.antt, and quanttick/exchanges/protocol.go and
-- quanttick/exchanges/timestamp.go in Exchanges/Protocol.antt. Exchanges/Binance.antt:
-- quanttick/exchanges/binance.go, with the messages of quanttick/exchanges/binance_protocol.go in
-- its Protocol.antt, quanttick/exchanges/binance_recovery.go and
-- quanttick/exchanges/binance_spot_recovery.go in its Recovery.antt, and the sessions in its
-- Session.antt, as there is one for each venue. Exchanges/Bitfinex.antt:
-- quanttick/exchanges/bitfinex.go, with its messages in Messages.antt and
-- quanttick/exchanges/bitfinex_recovery.go in Recovery.antt. Exchanges/Coinbase.antt:
-- quanttick/exchanges/coinbase.go and quanttick/exchanges/coinbase_protocol.go, with
-- quanttick/exchanges/coinbase_recovery.go in Recovery.antt. Exchanges/Deribit.antt:
-- quanttick/exchanges/deribit.go, with quanttick/exchanges/deribit_protocol.go in its
-- Protocol.antt and quanttick/exchanges/deribit_recovery.go in its Recovery.antt. Backoff.antt:
-- quanttick/exchanges/websocket.go. Worker.antt: cmd/quanttick/bucket_flush_worker.go.
-- Command.antt: cmd/quanttick/main.go. Examples.antt has tests, and each theorem with hypotheses
-- at an input that meets them. Common.antt has what the files share.
--
-- A function of the source keeps its name in the spelling of this language, as
-- insert_web_socket_data_trade for insertWebSocketDataTrade; a method takes its receiver as an
-- argument and returns the state that it leaves. An error is a value of a data type with a
-- constructor for each message. The parts of a long function are functions of their own, named
-- for what they do.
--
-- A time is the number of nanoseconds since the zero time of Go, in UTC, and a string is its
-- bytes. An int is its bit pattern below 2 ^ 64, added with wrap-around and compared with its
-- sign. A map is an association list: what the program ranges over is sorted first, or its order
-- does not matter. A stable sort is insertion behind all that is not above, and the binary search
-- of the standard library is written out. The package for decimals is a parameter, DecimalOps,
-- and DecimalLaws states what is documented of its sums and comparisons; the natural numbers meet
-- them. The answers of publishers and of the database's calls are parameters too, and so are the
-- decoding of JSON into the structs of a venue, the parsing of the times of a venue and of Retry-
-- After, and the answers of a venue to the requests of a recovery. A connection is the list of
-- what is read from it; the channel of an adapter has a number of trades that are received before
-- the context ends, and where a list of reads or of answers ends, the context has ended. Time
-- enters as an argument. Operations under one mutex are one step, and where a flush of the buffer
-- lets the mutex go between detach and restore, flush_during has the trades that are appended
-- meanwhile.
--
-- Loops over lists are recursion on the list, and the binary search is on fuel: the length of its
-- range, which suffices by Common/Search.antt. The split of a text at commas is on fuel for its
-- length, which suffices by Command/Split.antt. The digits of an int64 are on fuel for 20 digits,
-- which suffices by Common/Integers/Printed.antt. The pages of a recovery are recursion on the
-- pages that the source allows, and the attempts for a page are recursion on the list of answers.
-- The doubling of a delay, of a reconnection or of a flush, is recursion on the attempts that are
-- left.
--
-- Not modelled: the adapters of Bybit, Hyperliquid and Phoenix, JSON, SQL and HTTP, the fan-in of
-- the adapters' channels, the goroutine of the flush worker, and the environment, the signals and
-- the wiring of the command.
pub mod Aggregator
pub mod Backoff
pub mod Buffer
pub mod Command
pub mod Common
pub mod Examples
pub mod Exchanges
pub mod Merge
pub mod Pipeline
pub mod Recovery
pub mod Significant
pub mod Store
pub mod Stream
pub mod Thresholds
pub mod Trade
pub mod Worker
